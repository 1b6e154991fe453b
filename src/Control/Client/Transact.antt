-- ===== src/Control/Client/Transact.antt =====
-- What a transaction that returned has done.
use linux_tcp_cc.Base.{
  ℕ, zero, suc, ◌+◌, ◌-◌, [], ◌∷◌, ◌++◌, Option, length, take, false, ok-injective, refl, ◌≡◌, sym,
  ap, ◌∙◌, true, Bool-cases, none, some, List, Text, Outcome-cases, ok, Action-cases, inl, inr,
  arith,
}
use linux_tcp_cc.Base.Int.{ℤ, pos_part}
use linux_tcp_cc.Control.Client.{
  Pipes, is_allowed, is_none_allowed, is_short, read_chunk, read_rest, read_exact_fd, send, receive,
  transact,
}
use linux_tcp_cc.Control.Client.Laws.{Contract, read_exact_fd_takes}
use linux_tcp_cc.Control.Request.Laws.{encode_request-unpack_request, encode_request-IsEncodable}
use linux_tcp_cc.Control.Request.{
  request, unpack_request, ControlResponse, encode_request, decode_response, response_size,
}

-- What the pipe to the hosted side promises: `write` on a blocking stream says how many bytes from
-- the front it took, and nothing else sends or takes back anything.
pub record Sends {S : Type 0} (incoming outgoing : S → Text) (pipes : Pipes S) : Type 0 where
  pub wrote :
      (bytes : Text) (s t : S) (written : Option ℕ)
      → pipes.write bytes s ≡ (ok written, t)
      → (n : ℕ) × (written ≡ some n) × (outgoing t ≡ outgoing s ++ take n bytes)
  pub write_keeps : (bytes : Text) (s : S) → incoming (pipes.write bytes s).1 ≡ incoming s
  pub flush_keeps :
      (s : S)
      → (incoming (pipes.flush s).1 ≡ incoming s) × (outgoing (pipes.flush s).1 ≡ outgoing s)
  pub clock_quiet : (s : S) → outgoing (pipes.clock s).1 ≡ outgoing s
  pub select_quiet : (time : ℕ) (s : S) → outgoing (pipes.select time s).1 ≡ outgoing s
  pub read_quiet : (most : ℕ) (s : S) → outgoing (pipes.read most s).1 ≡ outgoing s

pub take-all : (text : Text) → take (length text) text ≡ text
take-all [] = refl
take-all (c ∷ text) = ap (λ rest. c ∷ rest) (take-all text)

module _ {S : Type 0} (pipes : Pipes S) where
  receive_lem :
      (operation : ℕ) (allowed : List ℤ) (raw : Text) (s t : S) (r : ControlResponse)
      → receive pipes operation allowed raw s ≡ (ok (some r), t)
      → (decode_response raw operation ≡ ok r) × (is_allowed r.status allowed ≡ true) × (t ≡ s)
  unfolding receive
  receive_lem operation allowed raw s t r h = elim (Outcome-cases (decode_response raw operation)) [
    | inr (e, bad) ↦ absurd (ground arith)
    | inl (response, good) ↦ (ground arith, ground arith, ground arith)
  ]

  -- The calls of a transaction that returned a response.
  transact-ok :
      (timeout : ℕ) (operation handle arg0 arg1 : ℤ) (bytes : Text) (allowed : List ℤ) (s t : S)
      (r : ControlResponse)
      → transact pipes timeout operation handle arg0 arg1 bytes allowed s ≡ (ok (some r), t)
      → (encoded : Text) × (raw : Text) × (u : S) × (encode_request operation handle arg0 arg1 bytes
          ≡ ok encoded)
        × (send pipes encoded s ≡ (ok tt, u))
        × (read_exact_fd pipes response_size timeout u ≡ (ok (some raw), t))
        × (decode_response raw (pos_part operation) ≡ ok r)
        × (is_allowed r.status allowed ≡ true)
  unfolding transact
  transact-ok timeout operation handle arg0 arg1 bytes allowed s t r h =
      elim (Bool-cases (is_none_allowed allowed)) [
        | inl nothing ↦ absurd (ground arith)
        | inr something ↦ elim (Outcome-cases (encode_request operation handle arg0 arg1 bytes)) [
          | inr (e, bad) ↦ absurd (ground arith)
          | inl (encoded, e1) ↦ elim (Action-cases (send pipes encoded s)) [
            | inr (e, u, bad) ↦ absurd (ground arith)
            | inl (_, u, e2) ↦ elim (Action-cases (read_exact_fd pipes response_size timeout u)) [
              | inr (e, v, bad) ↦ absurd (ground arith)
              | inl (none, v, e3) ↦ absurd (ground arith)
              | inl (some raw, v, e3) ↦
                  let end : receive pipes (pos_part operation) allowed raw v ≡ (ok (some r), t) =
                    ground arith in
                  let got = receive_lem (pos_part operation) allowed raw v t r end in
                  (
                    encoded,
                    raw,
                    u,
                    e1,
                    e2,
                    e3 ∙ ap (λ x. (ok (some raw), x)) (sym got.2),
                    got.0,
                    got.1,
                  )
            ]
          ]
        ]
      ]

  -- `send` that returned has written every byte.
  send-ok :
      (encoded : Text) (s t : S)
      → send pipes encoded s ≡ (ok tt, t)
      → (written : Option ℕ) × (u : S) × (pipes.write encoded s ≡ (ok written, u))
        × (is_short pipes (length encoded) written ≡ false)
        × (pipes.flush u ≡ (ok tt, t))
  unfolding send
  send-ok encoded s t h = elim (Action-cases (pipes.write encoded s)) [
    | inr (e, u, bad) ↦ absurd (ground arith)
    | inl (written, u, done) ↦ elim (Bool-cases (is_short pipes (length encoded) written)) [
      | inl short ↦ absurd (ground arith)
      | inr whole ↦ (written, u, done, whole, ground arith)
    ]
  ]

  module _ (incoming outgoing : S → Text) (keeps : Contract incoming pipes)
      (sends : Sends incoming outgoing pipes) where
    read_chunk-quiet :
        (deadline missing : ℕ) (s : S)
        → outgoing (read_chunk pipes deadline missing s).1 ≡ outgoing s
    unfolding read_chunk
    read_chunk-quiet deadline missing s =
        grind (arith, sends.clock_quiet, sends.select_quiet, sends.read_quiet)

    read_rest-quiet :
        (deadline wanted fuel : ℕ) (result : Text) (s : S)
        → outgoing (read_rest pipes deadline wanted fuel result s).1 ≡ outgoing s
    unfolding read_rest
    read_rest-quiet deadline wanted zero result s = ground arith
    read_rest-quiet deadline wanted (suc fuel) result s =
        let missing = wanted - length result in
        elim (Action-cases (read_chunk pipes deadline missing s)) [
          | inr (e, t, bad) ↦ ground (arith, read_chunk-quiet deadline missing s)
          | inl (chunk, t, good) ↦ ground (
            arith,
            read_chunk-quiet deadline missing s,
            read_rest-quiet deadline wanted fuel (result ++ chunk) t,
          )
        ]

    read_exact_fd-quiet :
        (wanted timeout : ℕ) (s : S)
        → outgoing (read_exact_fd pipes wanted timeout s).1 ≡ outgoing s
    unfolding read_exact_fd
    read_exact_fd-quiet wanted timeout s = elim (Action-cases (pipes.clock s)) [
      | inr (e, t, bad) ↦ ground (arith, sends.clock_quiet s)
      | inl (now, t, good) ↦
          ground (arith, sends.clock_quiet s, read_rest-quiet (now + timeout) wanted wanted [] t)
    ]

    -- A `send` that returned has put all bytes into the pipe, and read nothing.
    send-writes :
        (encoded : Text) (s t : S)
        → send pipes encoded s ≡ (ok tt, t)
        → (outgoing t ≡ outgoing s ++ encoded) × (incoming t ≡ incoming s)
    send-writes encoded s t h =
        let (written, u, done, whole, flushed) = send-ok encoded s t h in
        let (n, is, grown) = sends.wrote encoded s u written done in
        let all : n ≡ length encoded = ground arith in
        let full : take n encoded ≡ encoded = ap (λ k. take k encoded) all ∙ take-all encoded in
        let (a, b) = sends.flush_keeps u in
        let after : (pipes.flush u).1 ≡ t = ap (λ r. r.1) flushed in
        let before : (pipes.write encoded s).1 ≡ u = ap (λ r. r.1) done in
        (
          ap outgoing (sym after) ∙ b ∙ grown ∙ ap (λ x. outgoing s ++ x) full,
          ap incoming (sym after) ∙ a ∙ ap incoming (sym before) ∙ sends.write_keeps encoded s,
        )

    -- For pipes that keep their contracts: if a transaction returns a response, then exactly one
    -- request of 280 bytes was put into the pipe to the hosted side, from which it unpacks the
    -- magic number, the version and the arguments; exactly the next 276 bytes were taken from the
    -- pipe back; and the response is what these are decoded to for the operation, with an allowed
    -- status.
    pub transact_exchanges :
        (timeout : ℕ) (operation handle arg0 arg1 : ℤ) (bytes : Text) (allowed : List ℤ) (s t : S)
        (r : ControlResponse)
        → transact pipes timeout operation handle arg0 arg1 bytes allowed s ≡ (ok (some r), t)
        → (encoded : Text) × (raw : Text) × (outgoing t ≡ outgoing s ++ encoded)
          × (length encoded ≡ 280)
          × (unpack_request encoded
              ≡ request (pos_part operation) handle (pos_part arg0) (pos_part arg1) bytes)
          × (incoming s ≡ raw ++ incoming t)
          × (length raw ≡ 276)
          × (decode_response raw (pos_part operation) ≡ ok r)
          × (is_allowed r.status allowed ≡ true)
    transact_exchanges timeout operation handle arg0 arg1 bytes allowed s t r h =
        let (encoded, raw, u, e1, e2, e3, decoded, fits) =
          transact-ok timeout operation handle arg0 arg1 bytes allowed s t r h in
        let (grown, kept) = send-writes encoded s u e2 in
        let after : (read_exact_fd pipes response_size timeout u).1 ≡ t = ap (λ x. x.1) e3 in
        let quiet : outgoing t ≡ outgoing u =
          ap outgoing (sym after) ∙ read_exact_fd-quiet response_size timeout u in
        let (size, taken) =
          read_exact_fd_takes pipes incoming keeps response_size timeout u t raw e3 in
        let (packed, p1, p2, p3) =
          encode_request-unpack_request operation handle arg0 arg1 bytes
            (encode_request-IsEncodable operation handle arg0 arg1 bytes encoded e1) in
        let same : packed ≡ encoded = ok-injective (sym p1 ∙ e1) in
        (
          encoded,
          raw,
          quiet ∙ grown,
          ap length (sym same) ∙ p2,
          ap unpack_request (sym same) ∙ p3,
          sym kept ∙ taken,
          size,
          decoded,
          fits,
        )
