-- ===== src/Control/Client.antt =====
-- `read_exact_fd` and `ControlClient.transact`. The two pipes, and the clock, act on a state `S`. A
-- time is a number of ticks.
pub mod Laws
pub mod Transact
use linux_tcp_cc.Base.{
  ℕ, zero, suc, ◌+◌, ◌-◌, Bool, true, false, not, ◌&&◌, ◌||◌, ◌^◌, catch, Option, none, some, List,
  [], ◌∷◌, ◌++◌, Text, ⊤, Error, value_error, unicode_error, os_error, is_os_error, timeout_error,
  eof_error, broken_pipe, control_error, operation_error, Outcome, ok, raised, Action, pure, throw,
  lift, ◌>>=◌, ◌>>◌, raise_if, length, leb, ◌==◌, if◌then◌else◌,
}
use linux_tcp_cc.Base.Int.{ℤ, pos, pos_part, eq_ℤ}
use linux_tcp_cc.Control.Request.{ControlResponse, encode_request, decode_response, response_size}
use linux_tcp_cc.Host.Journal.{is_empty}

pub record Pipes (S : Type 0) : Type 0 where
  pub clock : Action S ℕ
  -- `select.select` with the time that remains: whether the descriptor is readable.
  pub select : ℕ → Action S Bool
  -- `os.read` of at most so many bytes.
  pub read : ℕ → Action S Text
  -- What `write` returns is the number of bytes written, or None.
  pub write : Text → Action S (Option ℕ)
  pub flush : Action S ⊤

-- `isinstance(error, ValueError)`
unfoldable pub is_value_error : Error → Bool
is_value_error (value_error _) = true
is_value_error unicode_error = true
is_value_error _ = false

-- `status in allowed_statuses`
unfoldable pub is_allowed : ℤ → List ℤ → Bool
is_allowed status [] = false
is_allowed status (allowed ∷ rest) = eq_ℤ status allowed || is_allowed status rest

abbrev pub is_none_allowed : List ℤ → Bool
is_none_allowed [] = true
is_none_allowed (_ ∷ _) = false

module _ {S : Type 0} (pipes : Pipes S) where
  -- One round of the loop, up to the chunk.
  unfoldable pub read_chunk : ℕ → ℕ → Action S Text
  read_chunk deadline missing = do
    now ← pipes.clock
    raise_if (leb deadline now) timeout_error
    readable ← pipes.select (deadline - now)
    raise_if (not readable) timeout_error
    chunk ← pipes.read missing
    raise_if (is_empty chunk) eof_error
    pure chunk

  -- The `while` loop. The result is none if the fuel ran out.
  unfoldable pub read_rest : ℕ → ℕ → ℕ → Text → Action S (Option Text)
  read_rest deadline wanted zero result s = elim (leb wanted (length result)) [
    | true ↦ (ok (some result), s)
    | false ↦ (ok none, s)
  ]
  read_rest deadline wanted (suc fuel) result s =
      let again = read_rest deadline wanted fuel in
      elim (leb wanted (length result)) [
        | true ↦ (ok (some result), s)
        | false ↦
            (read_chunk deadline (wanted - length result) >>= λ chunk. again (result ++ chunk)) s
      ]

  -- Every chunk has a byte at least, so the length is fuel enough.
  unfoldable pub read_exact_fd : ℕ → ℕ → Action S (Option Text)
  unfolding read_rest
  read_exact_fd wanted timeout = do
    raise_if (not (leb 1 wanted && leb wanted (2 ^ 31 - 1))) (value_error "length")
    raise_if (timeout == 0) (value_error "timeout must be positive")
    now ← pipes.clock
    read_rest (now + timeout) wanted wanted []

  -- `except (BrokenPipeError, OSError, ValueError)`
  abbrev pub send_error : Error → Action S ⊤
  send_error e = if is_os_error e || is_value_error e then throw (control_error e) else throw e

  abbrev pub is_short : ℕ → Option ℕ → Bool
  is_short wanted none = false
  is_short wanted (some written) = not (written == wanted)

  -- The `try` block that sends the request.
  unfoldable pub send : Text → Action S ⊤
  unfolding is_os_error is_value_error
  send encoded =
      catch
        (do
          written ← pipes.write encoded
          raise_if (is_short (length encoded) written) broken_pipe
          pipes.flush)
        send_error

  -- The end of `transact`.
  unfoldable pub receive : ℕ → List ℤ → Text → Action S (Option ControlResponse)
  unfolding is_allowed
  receive operation allowed raw = do
    response ← lift (decode_response raw operation)
    raise_if (not (is_allowed response.status allowed)) (operation_error operation response.status)
    pure (some response)

  -- `ControlClient.transact`, with the timeout of the client.
  unfoldable pub transact : ℕ → ℤ → ℤ → ℤ → ℤ → Text → List ℤ → Action S (Option ControlResponse)
  unfolding send read_exact_fd receive
  transact timeout operation handle arg0 arg1 bytes allowed = do
    raise_if (is_none_allowed allowed) (value_error "allowed_statuses must not be empty")
    encoded ← lift (encode_request operation handle arg0 arg1 bytes)
    send encoded
    raw ← read_exact_fd response_size timeout
    elim raw [ none ↦ pure none | some raw ↦ receive (pos_part operation) allowed raw ]
