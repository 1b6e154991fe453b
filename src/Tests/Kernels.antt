-- ===== src/Tests/Kernels.antt =====
-- An image of one header and one program header, with a stream that ends behind it.
use linux_tcp_cc.Base.{
  ℕ, ◌*◌, ◌+◌, ◌<◌, ◌≡◌, refl, sym, ap, Bool, true, false, [], ◌∷◌, ◌++◌, Text, text_eq, take, drop,
  length, ⊤, Outcome, ok, raised, Action, lit, replicate, ok-injective, value_error, arith,
}
use linux_tcp_cc.Control.Wire.{pack_le}
use linux_tcp_cc.Service.Kernel.{
  Storage, validate_kernel_image, elf_header_size, program_count, check_image, check_stream,
  check_header, check_programs, check_program,
}
use linux_tcp_cc.Service.Kernel.Laws.{
  Contract, is_executable_header, is_static, validate_kernel_image-IsKernel,
}

-- The type of the program header is a parameter.
abbrev image : ℕ → Text
image kind =
    (0x7F ∷ b'E' ∷ b'L' ∷ b'F' ∷ 2 ∷ 1 ∷ 1 ∷ replicate 9 0)
    ++ pack_le 2 2
    ++ pack_le 2 62
    ++ pack_le 4 1
    ++ pack_le 8 0x401000
    ++ pack_le 8 64
    ++ pack_le 8 0
    ++ pack_le 4 0
    ++ pack_le 2 64
    ++ pack_le 2 56
    ++ pack_le 2 1
    ++ pack_le 2 0
    ++ pack_le 2 0
    ++ pack_le 2 0
    ++ pack_le 4 kind
    ++ replicate 52 0

-- The state counts the streams that are open.
abbrev stored : Text → Storage ℕ
stored content = record {
  resolve = λ n. (ok (true, length content), n);
  is_executable = λ n. (ok true, n);
  open_image = λ n. (ok tt, 1 + n);
  read = λ at width n. (ok (take width (drop at content)), n);
  close = λ _. (ok tt, 0);
}

stored-Contract : (content : Text) → Contract content (stored content)
stored-Contract content = record { read_is = λ at n s t bytes h. ground arith }

accepted : validate_kernel_image (stored (image 1)) 0 ≡ (ok tt, 0)
unfolding validate_kernel_image check_image check_stream check_header check_programs check_program
    text_eq pack_le linux_tcp_cc.Control.Wire.unpack_le
accepted = refl

-- With PT_INTERP it is refused, and the stream is closed.
refused :
    validate_kernel_image (stored (image 3)) 0
    ≡ (raised (value_error "kernel image unexpectedly requires an ELF interpreter"), 0)
unfolding validate_kernel_image check_image check_stream check_header check_programs check_program
    text_eq pack_le linux_tcp_cc.Control.Wire.unpack_le linux_tcp_cc.Base.is_os_error
refused = refl

validate_kernel_image-IsKernel_example :
    (size : ℕ) × (u : ℕ) × ((stored (image 1)).resolve 0 ≡ (ok (true, size), u))
    × ((is_executable_header size (take elf_header_size (image 1)) ≡ true)
        × ((i : ℕ)
            → i < program_count (take elf_header_size (image 1))
            → is_static (image 1) i ≡ true))
validate_kernel_image-IsKernel_example =
    validate_kernel_image-IsKernel (image 1) (stored (image 1)) (stored-Contract (image 1)) 0 0
      accepted
