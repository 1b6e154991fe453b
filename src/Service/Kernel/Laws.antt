-- ===== src/Service/Kernel/Laws.antt =====
-- What an accepted image is.
use linux_tcp_cc.Base.{
  ℕ, zero, suc, ◌+◌, ◌*◌, ◌≡◌, ◌≤◌, ◌<◌, Bool, true, false, not, ◌&&◌, Text, take, drop, length,
  ◌==◌, ok, Action-cases, Bool-cases, ==_iff, ◌>>◌, String, inl, inr, arith,
}
use mathlib.Core.Path.{subst}
use linux_tcp_cc.Service.Kernel.{
  Storage, field, elf_header_size, program_header_size, pt_interp, program_offset, program_size,
  program_count, is_elf, is_little_64, is_x86_64_exec, has_entry, has_table, check_header,
  check_program, invalid, check_programs, check_stream, check_image, validate_kernel_image,
}

-- A read that returns gives the bytes of one file, as many as it has.
pub record Contract {S : Type 0} (content : Text) (storage : Storage S) : Type 0 where
  pub read_is :
      (at n : ℕ) (s t : S) (bytes : Text)
      → storage.read at n s ≡ (ok bytes, t)
      → bytes ≡ take n (drop at content)

-- The program header with an index.
abbrev pub program_at : Text → ℕ → Text
program_at content index =
    let header = take elf_header_size content in
    take program_header_size (drop (program_offset header + index * program_size header) content)

-- Every header of the table is whole, and none asks for an interpreter.
abbrev pub is_static : Text → ℕ → Bool
is_static content index =
    length (program_at content index) == program_header_size
    && not (field 0 4 (program_at content index) == pt_interp)

-- The header of an x86-64 executable, and a table within the size.
abbrev pub is_executable_header : ℕ → Text → Bool
is_executable_header size header =
    (length header == elf_header_size && is_elf header && is_little_64 header)
    && (is_x86_64_exec header && has_entry header && has_table size header)

-- Six tests that did not raise were passed.
six_passed :
    {S : Type 0} (m n o p q r : String) (a b c d e f : Bool) (s t : S)
    → (invalid m a
          >> (invalid n b >> (invalid o c >> (invalid p d >> (invalid q e >> invalid r f)))))
        s
      ≡ (ok tt, t)
    → ((a && b && c) && (d && e && f)) ≡ true
six_passed m n o p q r a b c d e f s t h = ground arith

module _ {S : Type 0} (content : Text) (storage : Storage S)
    (contract : Contract content storage) where
  check_header-ok :
      (size : ℕ) (header : Text) (s t : S)
      → check_header storage size header s ≡ (ok tt, t)
      → is_executable_header size header ≡ true
  unfolding check_header
  check_header-ok size header s t h =
      six_passed _ _ _ _ _ _ (length header == elf_header_size) (is_elf header)
        (is_little_64 header) (is_x86_64_exec header) (has_entry header) (has_table size header) s t
        h

  check_program-ok :
      (index : ℕ) (s t : S)
      → check_program storage (take elf_header_size content) index s ≡ (ok tt, t)
      → is_static content index ≡ true
  unfolding check_program
  check_program-ok index s t h =
      let header = take elf_header_size content in
      elim (Action-cases (
        storage.read (program_offset header + index * program_size header) program_header_size s)) [
          | inr (e, u, bad) ↦ absurd (ground arith)
          | inl (bytes, u, got) ↦
              subst
                (λ b. (length b == program_header_size && not (field 0 4 b == pt_interp)) ≡ true)
                (contract.read_is _ _ s u bytes got) (ground arith)
        ]

  check_programs-ok :
      (index left : ℕ) (s t : S)
      → check_programs storage (take elf_header_size content) index left s ≡ (ok tt, t)
      → (i : ℕ) → index ≤ i
      → i < index + left
      → is_static content i ≡ true
  unfolding check_programs
  check_programs-ok index zero s t h i low high = absurd (omega arith)
  check_programs-ok index (suc left) s t h i low high =
      elim (Action-cases (check_program storage (take elf_header_size content) index s)) [
        | inr (e, u, bad) ↦ absurd (ground arith)
        | inl (_, u, good) ↦ elim (Bool-cases (index == i)) [
          | inl same ↦
              subst (λ k. is_static content k ≡ true) ((==_iff index i).0 same)
                (check_program-ok index s u good)
          | inr other ↦
              check_programs-ok (suc index) left u t (ground arith) i (ground arith) (omega arith)
        ]
      ]

  -- What the size and the bytes of an accepted image are.
  abbrev pub IsKernel : ℕ → Type 0
  IsKernel size =
      (is_executable_header size (take elf_header_size content) ≡ true)
      × ((i : ℕ) → i < program_count (take elf_header_size content) → is_static content i ≡ true)

  check_stream-ok : (size : ℕ) (s t : S) → check_stream storage size s ≡ (ok tt, t) → IsKernel size
  unfolding check_stream
  check_stream-ok size s t h = elim (Action-cases (storage.read 0 elf_header_size s)) [
    | inr (e, u, bad) ↦ absurd (ground arith)
    | inl (header, u, got) ↦ elim (Action-cases (check_header storage size header u)) [
      | inr (e, v, bad) ↦ absurd (ground arith)
      | inl (_, v, good) ↦
          let is_header = contract.read_is 0 elf_header_size s u header got in
          let rest : check_programs storage header 0 (program_count header) v ≡ (ok tt, t) =
            ground arith in
          (
            subst (λ b. is_executable_header size b ≡ true) is_header
                (check_header-ok size header u v good),
            λ i below.
                check_programs-ok 0 (program_count (take elf_header_size content)) v t
                  (subst (λ b. check_programs storage b 0 (program_count b) v ≡ (ok tt, t))
                    is_header rest)
                  i (omega arith) (omega arith),
          )
    ]
  ]

  check_image-ok : (size : ℕ) (s t : S) → check_image storage size s ≡ (ok tt, t) → IsKernel size
  unfolding check_image
  check_image-ok size s t h = elim (Action-cases (storage.open_image s)) [
    | inr (e, u, bad) ↦ absurd (ground arith)
    | inl (_, u, opened) ↦ elim (Action-cases (check_stream storage size u)) [
      | inr (e, v, bad) ↦ elim (Action-cases (storage.close v)) [
        | inr (f, w, shut) ↦ absurd (ground arith)
        | inl (_, w, shut) ↦ absurd (ground arith)
      ]
      | inl (_, v, good) ↦ check_stream-ok size u v good
    ]
  ]

  -- An image that `validate_kernel_image` accepts is a regular file of the size that `stat` gave,
  -- and it starts with the header of a little-endian 64-bit x86-64 executable with an entry point,
  -- whose table of program headers lies within that size; each of them is whole, and none asks for
  -- an interpreter. This is for a stream whose reads give the bytes of one file.
  pub validate_kernel_image-IsKernel :
      (s t : S)
      → validate_kernel_image storage s ≡ (ok tt, t)
      → (size : ℕ) × (u : S) × (storage.resolve s ≡ (ok (true, size), u)) × IsKernel size
  unfolding validate_kernel_image
  validate_kernel_image-IsKernel s t h = elim (Action-cases (storage.resolve s)) [
    | inr (e, u, bad) ↦ absurd (ground arith)
    | inl ((false, size), u, found) ↦ absurd (ground arith)
    | inl ((true, size), u, found) ↦ elim (Action-cases (storage.is_executable u)) [
      | inr (e, v, bad) ↦ absurd (ground arith)
      | inl (false, v, asked) ↦ absurd (ground arith)
      | inl (true, v, asked) ↦ elim (Action-cases (check_image storage size v)) [
        | inr (e, w, bad) ↦ absurd (ground arith)
        | inl (_, w, good) ↦ (size, u, found, check_image-ok size v w good)
      ]
    ]
  ]
