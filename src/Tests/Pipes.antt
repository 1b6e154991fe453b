-- ===== src/Tests/Pipes.antt =====
-- A pipe from which at most 100 bytes are read at a time. The state is what is still to be read.
use linux_tcp_cc.Control.Wire.{unpack_le}
use linux_tcp_cc.Control.Wire.{take_le}
use linux_tcp_cc.Control.Wire.{take_i32}
use linux_tcp_cc.Control.Wire.{pack_le}
use linux_tcp_cc.Control.Wire.{pack_i32}
use linux_tcp_cc.Control.Wire.{pack_bytes}
use linux_tcp_cc.Control.Request.{unpack_response}
use linux_tcp_cc.Control.Request.{check_response}
use linux_tcp_cc.Control.Client.{read_chunk}
use linux_tcp_cc.Base.{
  ℕ, ◌≡◌, ◌≢◌, refl, sym, true, none, some, [], ◌∷◌, ◌++◌, Text, lit, length, length-take,
  take-append-drop, take, drop, leb, replicate, ok, if◌then◌else◌, arith,
}
use linux_tcp_cc.Base.Int.{pos}
use linux_tcp_cc.Control.Client.{Pipes, is_allowed, read_exact_fd, transact}
use linux_tcp_cc.Control.Client.Laws.{Contract, read_exact_fd_ends, read_exact_fd_takes}
use linux_tcp_cc.Control.Client.Transact.{Sends, take-all, transact_exchanges}
use linux_tcp_cc.Control.Request.{
  request, pack_request, unpack_request, ControlResponse, magic, abi_version, encode_request,
  decode_response, pack_response,
}

abbrev at_most : ℕ → ℕ
at_most most = if leb most 100 then most else 100

-- What is still to be read, and what was written.
abbrev pipes : Pipes (Text × Text)
pipes = record {
  clock = λ s. (ok 5, s);
  select = λ _ s. (ok true, s);
  read = λ most s. (ok (take (at_most most) s.0), (drop (at_most most) s.0, s.1));
  write = λ bytes s. (ok (some (length bytes)), (s.0, s.1 ++ bytes));
  flush = λ s. (ok tt, s);
}

abbrev incoming : Text × Text → Text
incoming s = s.0

abbrev outgoing : Text × Text → Text
outgoing s = s.1

pipes-Contract : Contract incoming pipes
pipes-Contract = record {
  clock_keeps = λ _. refl;
  select_keeps = λ _ _. refl;
  read_takes = λ most s t chunk h.
      let parts = sym (take-append-drop (at_most most) s.0) in
      let bound = length-take (at_most most) s.0 in
      let same : chunk ≡ take (at_most most) s.0 = ground arith in
      let rest : t.0 ≡ drop (at_most most) s.0 = ground arith in
      (rw (same, rest) parts, rw same (ground arith));
}

pipes-Sends : Sends incoming outgoing pipes
pipes-Sends = record {
  wrote = λ bytes s t written h. (length bytes, ground arith, ground (arith, take-all bytes));
  write_keeps = λ _ _. refl;
  flush_keeps = λ _. (refl, refl);
  clock_quiet = λ _. refl;
  select_quiet = λ _ _. refl;
  read_quiet = λ _ _. refl;
}

-- The answer to OP_GET_CC, and the first byte of what follows.
abbrev answer : Text
answer = pack_response (record {
  magic = magic;
  version = abi_version;
  operation = 10;
  status = pos 0;
  handle = pos 4;
  length = 3;
  payload = b'b' ∷ b'b' ∷ b'r' ∷ replicate 253 0;
})

abbrev response : ControlResponse
response = record {
  operation = 10;
  status = pos 0;
  handle = pos 4;
  bytes = b'b' ∷ b'b' ∷ b'r' ∷ [];
}

read_twice : read_exact_fd pipes 3 9 (lit "abcd", []) ≡ (ok (some (lit "abc")), (lit "d", []))
unfolding read_exact_fd lit read_chunk
read_twice = refl

read_exact_fd_takes_example :
    (length (lit "abc") ≡ 3) × (incoming (lit "abcd", []) ≡ lit "abc" ++ incoming (lit "d", []))
read_exact_fd_takes_example =
    read_exact_fd_takes pipes incoming pipes-Contract 3 9 (lit "abcd", []) (lit "d", []) (lit "abc")
      read_twice

read_exact_fd_ends_example : (read_exact_fd pipes 3 9 (lit "ab", [])).0 ≢ ok none
read_exact_fd_ends_example = read_exact_fd_ends pipes 3 9 (lit "ab", [])

-- The request that is written for OP_GET_CC on handle 4.
abbrev asking : Text
asking = pack_request (request 10 (pos 4) 0 0 [])

asked :
    transact pipes 9 (pos 10) (pos 4) (pos 0) (pos 0) [] (pos 0 ∷ []) (answer ++ (7 ∷ []), [])
    ≡ (ok (some response), (7 ∷ [], asking))
unfolding transact encode_request read_chunk pack_response pack_request pack_le pack_i32 pack_bytes
    decode_response check_response unpack_response take_le unpack_le take_i32
asked = refl

transact_exchanges_example :
    (encoded : Text) × (raw : Text) × (asking ≡ [] ++ encoded)
    × (length encoded ≡ 280)
    × (unpack_request encoded ≡ request 10 (pos 4) 0 0 [])
    × (answer ++ (7 ∷ []) ≡ raw ++ (7 ∷ []))
    × (length raw ≡ 276)
    × (decode_response raw 10 ≡ ok response)
    × (is_allowed response.status (pos 0 ∷ []) ≡ true)
transact_exchanges_example =
    transact_exchanges pipes incoming outgoing pipes-Contract pipes-Sends 9 (pos 10) (pos 4) (pos 0)
      (pos 0) [] (pos 0 ∷ []) (answer ++ (7 ∷ []), []) (7 ∷ [], asking) response asked
