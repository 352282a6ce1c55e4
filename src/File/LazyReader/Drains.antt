-- ===== src/File/LazyReader/Drains.antt =====
-- Reading a lazyBoundedReadCloser of pkg/file/lazy_bounded_read_closer.go to its end, and going back.
use stereoscope.Errors.{Failure, Result, ok, end_of_file, closed_file}
use stereoscope.File.LazyReader.{
  Handle, Got, got_nothing, handle_read_at, handle_close, max_int64, new_section, section_read,
  section_seek, seek_start, forward, LazyReader, new_lazy_bounded_read_closer, is_eof, is_closed,
  release_at_end, open_file, with_open, use_open, opened, read, seek,
}
use stereoscope.File.LazyReader.Ranges.{length-take-drop, take-append-drop, drop-drop}
use stereoscope.Prelude.{
  ℕ, zero, suc, ◌+◌, ◌-◌, ◌≤◌, ◌<◌, [], ◌++◌, append_assoc, append-nil, Option, none, some, Bool,
  true, false, Str, ltb, length, take, drop, if◌then◌else◌, ◌≡◌, refl, ap, ◌∙◌, arith,
}

abbrev pub Drained : Type 0
Drained = (Str × Option Failure) × LazyReader

-- What one read means for the loop.
unfoldable pub read_on : (LazyReader → Str → Drained) → Str → Got × LazyReader → Drained
read_on more read_so_far (got, d) = elim got.error [
  | some e ↦ ((read_so_far ++ got.bytes, some e), d)
  | none ↦ more d (read_so_far ++ got.bytes)
]

-- `io.ReadAll`, with a buffer of `len` bytes for each read: reads until an error. The error is kept, also
-- where it is the end of the file.
unfoldable pub read_all : (Str → Result Str) → ℕ → ℕ → LazyReader → Str → Drained
unfolding read_on
read_all os_open zero len d read_so_far = ((read_so_far, none), d)
read_all os_open (suc fuel) len d read_so_far =
    read_on (read_all os_open fuel len) read_so_far (read os_open len d)

-- The bytes that one read gets of those that are left.
abbrev chunk : ℕ → ℕ → ℕ
chunk room len = if ltb room len then room else len

handle_read_within :
    (n offset : ℕ) (h : Handle)
    → h.closed ≡ false
    → offset + n ≤ length h.contents
    → handle_read_at n offset h ≡ record { bytes = take n (drop offset h.contents); error = none }
unfolding handle_read_at
handle_read_within n offset h e fits = ground (arith, length-take-drop n offset h.contents fits)

module _ (os_open : Str → Result Str) (fuel len : ℕ) (d d' : LazyReader) (so_far bytes : Str) where
  read_all_more :
      read os_open len d ≡ (record { bytes = bytes; error = none }, d')
      → read_all os_open (suc fuel) len d so_far ≡ read_all os_open fuel len d' (so_far ++ bytes)
  unfolding read_all
  read_all_more e = ap (read_on (read_all os_open fuel len) so_far) e

  read_all_stops :
      (failure : Failure)
      → read os_open len d ≡ (record { bytes = bytes; error = some failure }, d')
      → read_all os_open (suc fuel) len d so_far ≡ ((so_far ++ bytes, some failure), d')
  unfolding read_all
  read_all_stops failure e = ap (read_on (read_all os_open fuel len) so_far) e

module _ (os_open : Str → Result Str) (path contents : Str) (start size : ℕ)
    (fits : start + size ≤ length contents) where
  -- The reader in the middle of its section, and at its end once the file is closed.
  abbrev at : ℕ → Bool → LazyReader
  at offset closed = record {
    path = path;
    file = some (record { contents = contents; offset = 0; closed = closed });
    reader = some (record { base = start; offset = offset; limit = start + size });
    start = start;
    size = size;
  }

  abbrev next : ℕ → ℕ → ℕ
  next offset len = chunk (start + size - offset) (suc len)

  section_read_within :
      (len offset : ℕ)
      → offset < start + size
      → section_read
          (suc len)
          (record { base = start; offset = offset; limit = start + size })
          (record { contents = contents; offset = 0; closed = false })
        ≡ (
          record { bytes = take (next offset len) (drop offset contents); error = none },
          record { base = start; offset = offset + next offset len; limit = start + size },
        )
  unfolding section_read
  section_read_within len offset inside =
      rw
        (handle_read_within (next offset len) offset
          (record { contents = contents; offset = 0; closed = false }) refl (ground arith))
        (ground (arith, length-take-drop (next offset len) offset contents (ground arith)))

  -- A read within the section gives the next bytes, with no error.
  read_within :
      (len offset : ℕ)
      → offset < start + size
      → read os_open (suc len) (at offset false) ≡ (
        record { bytes = take (next offset len) (drop offset contents); error = none },
        at (offset + next offset len) false,
      )
  unfolding read with_open open_file release_at_end is_eof handle_close
  read_within len offset inside = rw (section_read_within len offset inside) refl

  -- The first read at the end closes the file and returns no bytes and no error; each later one returns the end.
  read_at_end :
      (len : ℕ) (closed : Bool)
      → read os_open (suc len) (at (start + size) closed) ≡ (
        record { bytes = []; error = if closed then some end_of_file else none },
        at (start + size) true,
      )
  unfolding read with_open open_file section_read handle_read_at release_at_end is_eof is_closed
      handle_close
  read_at_end len false = ground arith
  read_at_end len true = ground arith

  read_all_at_end :
      (fuel len : ℕ) (so_far : Str)
      → read_all os_open (suc (suc fuel)) (suc len) (at (start + size) false) so_far
        ≡ ((so_far, some end_of_file), at (start + size) true)
  read_all_at_end fuel len so_far =
      read_all_more os_open (suc fuel) (suc len) _ (at (start + size) true) so_far []
        (read_at_end len false)
      ∙ rw (append-nil so_far) (
          read_all_stops os_open fuel (suc len) _ (at (start + size) true) so_far [] end_of_file
            (read_at_end len true)
          ∙ rw (append-nil so_far) refl)

  -- The bytes of one read, and those of the reads after it.
  joined :
      (offset n rest : ℕ) (so_far : Str)
      → (so_far ++ take n (drop offset contents)) ++ take rest (drop (offset + n) contents)
        ≡ so_far ++ take (n + rest) (drop offset contents)
  joined offset n rest so_far =
      append_assoc so_far (take n (drop offset contents)) (take rest (drop (offset + n) contents))
      ∙ rw (← (drop-drop n offset contents))
          (ap (◌++◌ so_far) (take-append-drop n rest (drop offset contents)))

  read_all_within :
      (fuel left len offset : ℕ) (so_far : Str)
      → offset + left ≡ start + size
      → left < fuel
      → read_all os_open (suc fuel) (suc len) (at offset false) so_far
        ≡ ((so_far ++ take left (drop offset contents), some end_of_file), at (start + size) true)
  read_all_within zero left len offset so_far e enough = absurd (omega arith)
  read_all_within (suc fuel) zero len offset so_far e enough =
      let here : offset ≡ start + size = omega arith in
      rw (here, append-nil so_far) (read_all_at_end fuel len so_far)
  read_all_within (suc fuel) (suc left) len offset so_far e enough =
      let n = next offset len in
      let taken : suc left ≡ n + (suc left - n) = ground arith in
      read_all_more os_open (suc fuel) (suc len) _ _ so_far _ (read_within len offset (omega arith))
      ∙ read_all_within fuel (suc left - n) len (offset + n)
          (so_far ++ take n (drop offset contents)) (ground arith) (ground arith)
      ∙ ap (λ b. ((b, some end_of_file), at (start + size) true))
          (joined offset n (suc left - n) so_far ∙ rw (← taken) refl)

  module _ (opens : os_open path ≡ ok contents) (bounded : start + size ≤ max_int64) where
    new_opened :
        opened (new_lazy_bounded_read_closer path start size) (os_open path)
        ≡ (ok tt, at start false)
    unfolding opened new_lazy_bounded_read_closer new_section
    new_opened = rw opens (ground (arith, bounded))

    new_read :
        (len : ℕ)
        → read os_open len (new_lazy_bounded_read_closer path start size)
          ≡ read os_open len (at start false)
    unfolding read with_open open_file new_lazy_bounded_read_closer
    new_read len = ap (use_open got_nothing _) new_opened

    -- Where the file opens, and has the range of the reader, reading all of a new reader with a buffer that is not
    -- empty ends at the end of the file with the bytes of the range, after at most two reads more than the range
    -- has bytes; the file is closed by then.
    pub read_all_lem :
        (len : ℕ)
        → read_all os_open
            (suc (suc size))
            (suc len)
            (new_lazy_bounded_read_closer path start size)
            []
          ≡ ((take size (drop start contents), some end_of_file), at (start + size) true)
    unfolding read_all
    read_all_lem len =
        ap (read_on (read_all os_open (suc size) (suc len)) []) (new_read (suc len))
        ∙ unfold read_all in read_all_within (suc size) size len start [] refl (omega arith)

    rewound :
        (len : ℕ)
        → 0 < size
        → (read os_open
            (suc len)
            (seek os_open (forward 0) seek_start (at (start + size) true)).1).0
          ≡ got_nothing closed_file
    unfolding read seek with_open open_file use_open section_read section_seek handle_read_at
        release_at_end is_eof handle_close
    rewound len h = ground (arith, h)

    -- Once all has been read, a return to the start does not open the file again: where the range has a byte, the
    -- next read fails, since the file is closed.
    pub read-seek-read_all :
        (len : ℕ)
        → 0 < size
        → (read os_open
            (suc len)
            (seek os_open
              (forward 0)
              seek_start
              (read_all os_open
                (suc (suc size))
                (suc len)
                (new_lazy_bounded_read_closer path start size)
                []).1).1).0
          ≡ got_nothing closed_file
    read-seek-read_all len some_byte = rw (read_all_lem len) (rewound len some_byte)
