-- ===== src/File/LazyReader.antt =====
-- pkg/file/lazy_bounded_read_closer.go and lazy_read_closer.go: files that are opened at the first read. An
-- `os.File` that is open is its contents with an offset; an `io.SectionReader` is a range of one.
pub mod Ranges
pub mod Drains
use stereoscope.Errors.{Failure, Result, ok, err, end_of_file, closed_file, bad_offset, panics}
use stereoscope.Prelude.{
  ℕ, ◌+◌, ◌-◌, ◌^◌, List, [], ◌∷◌, Option, none, some, Bool, true, false, Str, ltb, leb, length,
  take, drop, if◌then◌else◌,
}

-- An `os.File` that was opened.
pub record Handle : Type 0 where
  pub contents : Str
  pub offset : ℕ
  pub closed : Bool

-- What a read returns: the bytes, and the error.
pub record Got : Type 0 where
  pub bytes : Str
  pub error : Option Failure

abbrev pub got_nothing : Failure → Got
got_nothing e = record { bytes = []; error = some e }

-- `os.File.ReadAt`
unfoldable pub handle_read_at : ℕ → ℕ → Handle → Got
handle_read_at len offset h =
    let here = take len (drop offset h.contents) in
    if h.closed
    then got_nothing closed_file
    else record { bytes = here; error = if ltb (length here) len then some end_of_file else none }

-- `os.File.Close`: the error if it is closed already.
unfoldable pub handle_close : Handle → Option Failure × Handle
handle_close h = if h.closed then (some closed_file, h) else (none, record h { closed = true })

-- `io.SectionReader`
pub record Section : Type 0 where
  pub base : ℕ
  pub offset : ℕ
  pub limit : ℕ

abbrev pub max_int64 : ℕ
max_int64 = 2 ^ 63 - 1

-- `io.NewSectionReader`
unfoldable pub new_section : ℕ → ℕ → Section
new_section start size = record {
  base = start;
  offset = start;
  limit = if leb (start + size) max_int64 then start + size else max_int64;
}

-- `Read` of a section
unfoldable pub section_read : ℕ → Section → Handle → Got × Section
unfolding handle_read_at
section_read len s h =
    let room = s.limit - s.offset in
    let got = handle_read_at (if ltb room len then room else len) s.offset h in
    if leb s.limit s.offset
    then (got_nothing end_of_file, s)
    else (got, record s { offset = s.offset + length got.bytes })

-- `ReadAt` of a section
unfoldable pub section_read_at : ℕ → ℕ → Section → Handle → Got
unfolding handle_read_at
section_read_at len offset s h =
    let room = s.limit - (offset + s.base) in
    let cut = handle_read_at room (offset + s.base) h in
    if leb (s.limit - s.base) offset
    then got_nothing end_of_file
    else if ltb room len
    then record {
      bytes = cut.bytes;
      error = elim cut.error [ none ↦ some end_of_file | some e ↦ some e ];
    }
    else handle_read_at len (offset + s.base) h

pub data Whence : Type 0 where
  seek_start : Whence
  seek_current : Whence
  seek_end : Whence

-- An offset of either sign.
pub data Offset : Type 0 where
  forward : ℕ → Offset
  backward : ℕ → Offset

seek_origin : Whence → Section → ℕ
seek_origin seek_start s = s.base
seek_origin seek_current s = s.offset
seek_origin seek_end s = s.limit

-- The sum, if it is not below the base.
seek_target : ℕ → Offset → ℕ → Option ℕ
seek_target base (forward k) origin = if ltb (origin + k) base then none else some (origin + k)
seek_target base (backward k) origin =
    if ltb origin k then none else if ltb (origin - k) base then none else some (origin - k)

-- `Seek` of a section
unfoldable pub section_seek : Offset → Whence → Section → Result ℕ × Section
unfolding seek_origin seek_target
section_seek offset whence s = elim (seek_target s.base offset (seek_origin whence s)) [
  | none ↦ (err bad_offset, s)
  | some target ↦ (ok (target - s.base), record s { offset = target })
]

-- `lazyBoundedReadCloser`
pub record LazyReader : Type 0 where
  pub path : Str
  pub file : Option Handle
  pub reader : Option Section
  pub start : ℕ
  pub size : ℕ

-- `newLazyBoundedReadCloser`
unfoldable pub new_lazy_bounded_read_closer : Str → ℕ → ℕ → LazyReader
new_lazy_bounded_read_closer path start size = record {
  path = path;
  file = none;
  reader = none;
  start = start;
  size = size;
}

-- Whether the error is `io.EOF`.
unfoldable pub is_eof : Option Failure → Bool
is_eof (some end_of_file) = true
is_eof _ = false

-- `errors.Is(err, os.ErrClosed)`
unfoldable pub is_closed : Option Failure → Bool
is_closed (some closed_file) = true
is_closed _ = false

-- At the end of the file it is closed; an error of that takes the place of the end, and so does success.
unfoldable pub release_at_end : Got → Handle → Got × Handle
unfolding is_eof is_closed handle_close
release_at_end got h =
    let (failed, h') = handle_close h in
    if is_eof got.error
    then (if is_closed failed then got else record { bytes = got.bytes; error = failed }, h')
    else (got, h)

-- What `openFile` does with the file, or with the error.
unfoldable pub opened : LazyReader → Result Str → Result (Unit {0}) × LazyReader
unfolding new_section
opened d (err e) = (err e, d)
opened d (ok contents) = (
  ok tt,
  record d {
    file = some (record { contents = contents; offset = 0; closed = false });
    reader = some (new_section d.start d.size);
  },
)

-- What a method does with the file and its section, once they are open.
unfoldable pub use_open :
    {A : Type 0}
    → (Failure → A)
    → (Section → Handle → LazyReader → A × LazyReader)
    → Result (Unit {0}) × LazyReader
    → A × LazyReader
use_open failed act (err e, d) = (failed e, d)
use_open failed act (ok u, d) = elim d.reader [
  | none ↦ (failed panics, d)
  | some s ↦ elim d.file [ none ↦ (failed panics, d) | some h ↦ act s h d ]
]

-- `os_open` opens a path: the contents of the file, or an error.
module _ (os_open : Str → Result Str) where
  -- `openFile`
  unfoldable pub open_file : LazyReader → Result (Unit {0}) × LazyReader
  unfolding opened
  open_file d = elim d.reader [ some s ↦ (ok tt, d) | none ↦ opened d (os_open d.path) ]

  unfoldable pub with_open :
      {A : Type 0}
      → (Failure → A)
      → (Section → Handle → LazyReader → A × LazyReader)
      → LazyReader
      → A × LazyReader
  unfolding open_file use_open
  with_open failed act d = use_open failed act (open_file d)

  -- `Read`
  unfoldable pub read : ℕ → LazyReader → Got × LazyReader
  unfolding with_open section_read release_at_end
  read len = with_open got_nothing λ s h d1.
      let (got, s') = section_read len s h in
      let (got', h') = release_at_end got h in
      (got', record d1 { file = some h'; reader = some s' })

  -- `ReadAt`
  unfoldable pub read_at : ℕ → ℕ → LazyReader → Got × LazyReader
  unfolding with_open section_read_at release_at_end
  read_at len offset = with_open got_nothing λ s h d1.
      let (got, h') = release_at_end (section_read_at len offset s h) h in
      (got, record d1 { file = some h' })

  -- `Seek`
  unfoldable pub seek : Offset → Whence → LazyReader → Result ℕ × LazyReader
  unfolding with_open section_seek
  seek offset whence =
      with_open err
        λ s h d1. let (r, s') = section_seek offset whence s in (r, record d1 { reader = some s' })

  -- `Close`: that the file is closed already is no error.
  unfoldable pub close : LazyReader → Option Failure × LazyReader
  unfolding handle_close is_closed
  close d = elim d.file [
    | none ↦ (none, d)
    | some h ↦
        let failed = (handle_close h).0 in
        (if is_closed failed then none else failed, record d { file = none; reader = none })
  ]
