-- ===== src/Launcher/Architecture.antt =====
-- read_pe_architecture of launcher/pe_arch.cpp. `none` is a file that cannot be opened; the bytes
-- that can be read may be fewer than GetFileSizeEx says.
use ffb_interceptor_visualiz.Common.{
  ℕ, ◌+◌, ◌^◌, ◌&&◌, Option, none, some, leb, ltb, ◌==◌, if◌then◌else◌,
}
use ffb_interceptor_visualiz.ImportTable.{Memory, read}

pub data PeArchitecture : Type 0 where
  unknown x86 x64 : PeArchitecture

pub record PeFile : Type 0 where
  pub size : Option ℕ
  pub contents : Memory

-- IMAGE_FILE_MACHINE_I386 and IMAGE_FILE_MACHINE_AMD64
abbrev pub machine_architecture : ℕ → PeArchitecture
machine_architecture machine =
    if machine == 0x014c then x86 else if machine == 0x8664 then x64 else unknown

-- The signature and IMAGE_FILE_HEADER, which has 20 bytes and Machine first.
abbrev pub header_architecture : (signature header machine : Option ℕ) → PeArchitecture
header_architecture (some signature) (some header) (some machine) =
    if signature == 0x4550 then machine_architecture machine else unknown
header_architecture signature header machine = unknown

-- e_lfanew is signed, and IMAGE_DOS_HEADER has 64 bytes with e_magic first and e_lfanew at 60.
abbrev pub dos_architecture : Memory → (size : ℕ) → (dos magic lfanew : Option ℕ) → PeArchitecture
dos_architecture file size (some dos) (some magic) (some lfanew) =
    if magic == 0x5a4d && leb 64 lfanew && ltb lfanew (2 ^ 31) && leb (lfanew + 24) size
    then header_architecture (read 4 lfanew file) (read 20 (lfanew + 4) file)
        (read 2 (lfanew + 4) file)
    else unknown
dos_architecture file size dos magic lfanew = unknown

abbrev pub sized_architecture : Memory → Option ℕ → PeArchitecture
sized_architecture file none = unknown
sized_architecture file (some size) =
    dos_architecture file size (read 64 0 file) (read 2 0 file) (read 4 60 file)

unfoldable pub read_pe_architecture : Option PeFile → PeArchitecture
unfolding read
read_pe_architecture none = unknown
read_pe_architecture (some file) = sized_architecture file.contents file.size
