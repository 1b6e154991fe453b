-- ===== src/Service/Kernel.antt =====
-- `validate_kernel_image`. The path stays with the storage that answers for it.
pub mod Laws
use linux_tcp_cc.Base.{
  ℕ, zero, suc, ◌+◌, ◌*◌, Bool, true, false, not, ◌&&◌, ◌||◌, [], ◌∷◌, Text, text_eq, take, drop,
  length, ltb, ⊤, ◌==◌, if◌then◌else◌, String, value_error, is_os_error, Outcome, ok, raised,
  Action, pure, throw, ◌>>=◌, ◌>>◌, raise_if,
}
use linux_tcp_cc.Control.Wire.{unpack_le}

-- What `resolve`, `stat` and `os.access` say of the file, and the stream of its bytes; `read` is a
-- read of so many bytes behind a `seek`, the first one at the start.
pub record Storage (S : Type 0) : Type 0 where
  -- Whether the file is regular, and `st_size`.
  pub resolve : Action S (Bool × ℕ)
  pub is_executable : Action S Bool
  pub open_image : Action S ⊤
  pub read : ℕ → ℕ → Action S Text
  pub close : Action S ⊤

abbrev pub elf_header_size : ℕ
elf_header_size = 64

abbrev pub program_header_size : ℕ
program_header_size = 56

abbrev pub pt_interp : ℕ
pt_interp = 3

-- A field of `ELF_HEADER` or `ELF_PROGRAM_HEADER` by its place and width.
abbrev pub field : ℕ → ℕ → Text → ℕ
field at width header = unpack_le (take width (drop at header))

abbrev pub program_offset : Text → ℕ
program_offset = field 32 8

abbrev pub program_size : Text → ℕ
program_size = field 54 2

abbrev pub program_count : Text → ℕ
program_count = field 56 2

-- `ident`: the magic number, the class and the byte order.
abbrev pub is_elf : Text → Bool
is_elf header = text_eq (take 4 header) (0x7F ∷ b'E' ∷ b'L' ∷ b'F' ∷ [])

abbrev pub is_little_64 : Text → Bool
is_little_64 header = field 4 1 header == 2 && field 5 1 header == 1

-- `ET_EXEC` for `EM_X86_64`.
abbrev pub is_x86_64_exec : Text → Bool
is_x86_64_exec header = field 16 2 header == 2 && field 18 2 header == 62 && field 20 4 header == 1

abbrev pub has_entry : Text → Bool
has_entry header = field 52 2 header == elf_header_size && not (field 24 8 header == 0)

-- The table of program headers lies within the file.
abbrev pub has_table : ℕ → Text → Bool
has_table size header =
    not (program_count header == 0)
    && not (ltb (program_size header) program_header_size)
    && not (ltb (program_offset header) elf_header_size)
    && not (ltb size (program_offset header + program_size header * program_count header))

abbrev pub invalid : String → Bool → {S : Type 0} → Action S ⊤
invalid what good = raise_if (not good) (value_error what)

module _ {S : Type 0} (storage : Storage S) where
  -- The tests of the ELF header.
  unfoldable pub check_header : ℕ → Text → Action S ⊤
  unfolding text_eq
  check_header size header = do
    invalid "kernel image has a truncated ELF header" (length header == elf_header_size)
    invalid "kernel image is not ELF" (is_elf header)
    invalid "kernel image must be 64-bit little-endian ELF" (is_little_64 header)
    invalid "kernel image must be an x86-64 ET_EXEC ELF" (is_x86_64_exec header)
    invalid "kernel image has an invalid ELF entry header" (has_entry header)
    invalid "kernel image has an invalid program-header table" (has_table size header)

  unfoldable pub check_program : Text → ℕ → Action S ⊤
  check_program header index = do
    program ← storage.read (program_offset header + index * program_size header) program_header_size
    invalid "kernel image has a truncated program header" (length program == program_header_size)
    invalid "kernel image unexpectedly requires an ELF interpreter"
        (not (field 0 4 program == pt_interp))

  -- `for index in range(program_count)`: the next index and how many are left.
  unfoldable pub check_programs : Text → ℕ → ℕ → Action S ⊤
  unfolding check_program
  check_programs header index zero = pure tt
  check_programs header index (suc left) = do
    check_program header index
    check_programs header (suc index) left

  unfoldable pub check_stream : ℕ → Action S ⊤
  unfolding check_header check_programs
  check_stream size = do
    header ← storage.read 0 elf_header_size
    check_header size header
    check_programs header 0 (program_count header)

  -- `with resolved.open("rb") as stream`: the stream is closed whatever the block does.
  unfoldable pub check_image : ℕ → Action S ⊤
  unfolding check_stream
  check_image size = do
    storage.open_image
    λ s.
        let (r, t) = check_stream size s in
        let (c, u) = storage.close t in elim c [ ok _ ↦ (r, u) | raised e ↦ (raised e, u) ]

  -- `except OSError as error: raise ValueError`
  abbrev pub as_value_error : {A : Type 0} → String → Outcome A → Outcome A
  as_value_error what (ok a) = ok a
  as_value_error what (raised e) = raised (if is_os_error e then value_error what else e)

  abbrev pub reading : {A : Type 0} → String → Action S A → Action S A
  reading what m s = let (r, t) = m s in (as_value_error what r, t)

  unfoldable pub validate_kernel_image : Action S ⊤
  unfolding check_image
  validate_kernel_image = do
    (regular, size) ← reading "kernel image is unavailable" storage.resolve
    invalid "kernel image is not a regular file" regular
    executable ← storage.is_executable
    invalid "kernel image is not executable" executable
    reading "kernel image cannot be read" (check_image size)
