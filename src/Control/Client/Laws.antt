-- ===== src/Control/Client/Laws.antt =====
-- A record is read whole, or not at all.
use linux_tcp_cc.Base.{
  ℕ, zero, suc, ◌+◌, ◌-◌, ◌≤◌, ◌≡◌, ◌≢◌, sym, ap, ◌∙◌, true, false, Bool-cases, none, some, [], ◌∷◌,
  ◌++◌, append_assoc, length, length-append, Text, leb, ok, Action-cases, inl, inr, arith,
}
use linux_tcp_cc.Control.Client.{Pipes, read_chunk, read_rest, read_exact_fd}
use linux_tcp_cc.Host.Journal.{is_empty}

-- What the pipe promises about the bytes that are still to be read from it.
pub record Contract {S : Type 0} (incoming : S → Text) (pipes : Pipes S) : Type 0 where
  pub clock_keeps : (s : S) → incoming (pipes.clock s).1 ≡ incoming s
  pub select_keeps : (time : ℕ) (s : S) → incoming (pipes.select time s).1 ≡ incoming s
  pub read_takes :
      (most : ℕ) (s t : S) (chunk : Text)
      → pipes.read most s ≡ (ok chunk, t)
      → (incoming s ≡ chunk ++ incoming t) × (length chunk ≤ most)

module _ {S : Type 0} (pipes : Pipes S) where
  -- The calls of a round that returned.
  Round : ℕ → ℕ → S → Text → S → Type 0
  Round deadline missing s chunk t =
      (now : ℕ) × (s1 : S) × (s2 : S) × (pipes.clock s ≡ (ok now, s1))
      × (pipes.select (deadline - now) s1 ≡ (ok true, s2))
      × (pipes.read missing s2 ≡ (ok chunk, t))
      × (is_empty chunk ≡ false)

  read_chunk-Round :
      (deadline missing : ℕ) (s t : S) (chunk : Text)
      → read_chunk pipes deadline missing s ≡ (ok chunk, t)
      → Round deadline missing s chunk t
  unfolding read_chunk Round
  read_chunk-Round deadline missing s t chunk h = elim (Action-cases (pipes.clock s)) [
    | inr (e, u, bad) ↦ absurd (ground arith)
    | inl (now, s1, e1) ↦ elim (Bool-cases (leb deadline now)) [
      | inl late ↦ absurd (ground arith)
      | inr early ↦ elim (Action-cases (pipes.select (deadline - now) s1)) [
        | inr (e, u, bad) ↦ absurd (ground arith)
        | inl (readable, s2, e2) ↦ elim (Action-cases (pipes.read missing s2)) [
          | inr (e, u, bad) ↦ absurd (ground arith)
          | inl (found, s3, e3) ↦ (now, s1, s2, e1, ground arith, ground arith, ground arith)
        ]
      ]
    ]
  ]

  nonempty : (text : Text) → is_empty text ≡ false → 1 ≤ length text
  nonempty [] e = absurd (ground arith)
  nonempty (c ∷ text) e = omega arith

  read_chunk-nonempty :
      (deadline missing : ℕ) (s t : S) (chunk : Text)
      → read_chunk pipes deadline missing s ≡ (ok chunk, t)
      → 1 ≤ length chunk
  unfolding Round
  read_chunk-nonempty deadline missing s t chunk h =
      let (_, _, _, _, _, _, full) = read_chunk-Round deadline missing s t chunk h in
      nonempty chunk full

  read_rest-ends :
      (deadline wanted fuel : ℕ) (result : Text) (s : S)
      → wanted ≤ length result + fuel
      → (read_rest pipes deadline wanted fuel result s).0 ≢ ok none
  unfolding read_rest
  read_rest-ends deadline wanted zero result s h = elim (Bool-cases (leb wanted (length result))) [
    | inl full ↦ ground arith
    | inr short ↦ absurd (ground arith)
  ]
  read_rest-ends deadline wanted (suc fuel) result s h =
      elim (Bool-cases (leb wanted (length result))) [
        | inl full ↦ ground arith
        | inr short ↦ elim (Action-cases (read_chunk pipes deadline (wanted - length result) s)) [
          | inr (e, t, bad) ↦ ground arith
          | inl (chunk, t, good) ↦
              let some_read =
                read_chunk-nonempty deadline (wanted - length result) s t chunk good in
              let longer = length-append result chunk in
              let rest = read_rest-ends deadline wanted fuel (result ++ chunk) t (omega arith) in
              ground arith
        ]
      ]

  -- `read_exact_fd` returns bytes or raises: the length is fuel enough for its loop, however
  -- short the chunks are.
  pub read_exact_fd_ends :
      (wanted timeout : ℕ) (s : S) → (read_exact_fd pipes wanted timeout s).0 ≢ ok none
  unfolding read_exact_fd
  read_exact_fd_ends wanted timeout s = elim (Action-cases (pipes.clock s)) [
    | inr (e, t, bad) ↦ ground arith
    | inl (now, t, good) ↦
        let rest = read_rest-ends (now + timeout) wanted wanted [] t (omega arith) in ground arith
  ]

  module _ (incoming : S → Text) (keeps : Contract incoming pipes) where
    read_chunk-takes :
        (deadline missing : ℕ) (s t : S) (chunk : Text)
        → read_chunk pipes deadline missing s ≡ (ok chunk, t)
        → (incoming s ≡ chunk ++ incoming t) × (length chunk ≤ missing)
    unfolding Round
    read_chunk-takes deadline missing s t chunk h =
        let (now, s1, s2, e1, e2, e3, _) = read_chunk-Round deadline missing s t chunk h in
        let taken = keeps.read_takes missing s2 t chunk e3 in
        let k1 : incoming s1 ≡ incoming s = ground (arith, keeps.clock_keeps s) in
        let k2 : incoming s2 ≡ incoming s1 =
          ground (arith, keeps.select_keeps (deadline - now) s1) in
        (sym k1 ∙ sym k2 ∙ taken.0, taken.1)

    read_rest-takes :
        (deadline wanted fuel : ℕ) (result : Text) (s t : S) (bytes : Text)
        → length result ≤ wanted
        → read_rest pipes deadline wanted fuel result s ≡ (ok (some bytes), t)
        → (length bytes ≡ wanted) × (result ++ incoming s ≡ bytes ++ incoming t)
    unfolding read_rest
    read_rest-takes deadline wanted zero result s t bytes l h =
        elim (Bool-cases (leb wanted (length result))) [
          | inl full ↦ (ground arith, ground arith)
          | inr short ↦ absurd (ground arith)
        ]
    read_rest-takes deadline wanted (suc fuel) result s t bytes l h =
        elim (Bool-cases (leb wanted (length result))) [
          | inl full ↦ (ground arith, ground arith)
          | inr short ↦ elim (Action-cases (read_chunk pipes deadline (wanted - length result) s)) [
            | inr (e, u, bad) ↦ absurd (ground arith)
            | inl (chunk, u, good) ↦
                let taken = read_chunk-takes deadline (wanted - length result) s u chunk good in
                let longer = length-append result chunk in
                let more : read_rest pipes deadline wanted fuel (result ++ chunk) u
                    ≡ (ok (some bytes), t) =
                  ground arith in
                let rest =
                  read_rest-takes deadline wanted fuel (result ++ chunk) u t bytes (ground arith)
                    more in
                (
                  rest.0,
                  ap (λ x. result ++ x) taken.0
                      ∙ sym (append_assoc result chunk (incoming u))
                      ∙ rest.1,
                )
          ]
        ]

    -- For a pipe that keeps its contract: the bytes that `read_exact_fd` returns are exactly as
    -- many as were asked for, and they are the next bytes of the pipe, in their order: the rest
    -- of the pipe is left for the next call, however the bytes were cut into chunks.
    pub read_exact_fd_takes :
        (wanted timeout : ℕ) (s t : S) (bytes : Text)
        → read_exact_fd pipes wanted timeout s ≡ (ok (some bytes), t)
        → (length bytes ≡ wanted) × (incoming s ≡ bytes ++ incoming t)
    unfolding read_exact_fd
    read_exact_fd_takes wanted timeout s t bytes h = elim (Action-cases (pipes.clock s)) [
      | inr (e, u, bad) ↦ absurd (ground arith)
      | inl (now, u, good) ↦
          let kept : incoming u ≡ incoming s = ground (arith, keeps.clock_keeps s) in
          let more : read_rest pipes (now + timeout) wanted wanted [] u ≡ (ok (some bytes), t) =
            ground arith in
          let rest =
            read_rest-takes (now + timeout) wanted wanted [] u t bytes (omega arith) more in
          (rest.0, sym kept ∙ rest.1)
    ]
