-- ===== src/Lpack/Encode.antt =====
-- The luapack format described as a list of entries, and `serialize_write_Q` of src/lua_lpack.c
-- against that description.
use luaw.Prelude.{
  ℕ, suc, ◌+◌, ◌^◌, ◌≤◌, ◌<◌, ◌≡◌, refl, ap, ◌∙◌, Bool, true, List, [], ◌∷◌, ◌++◌, none, some,
  length, arith, length-append,
}
use mathlib.Core.List.{append_assoc, append-nil}
use luaw.Prelude.Int.{ℤ, pos, negsuc}
use luaw.Lpack.{Tag, ok, fault, Floats, code, narrow}
use luaw.Lpack.Write.{
  Item, number, string, write_value, write_marker, write_loop, serialize_write_Q,
  fetch_next_as_integer, fetch_next_as_string, marker_case, string_case, byte_length, short_length,
  word_length,
}
use luaw.Lpack.Entries.{
  Entry, mark, int, str, high_first, int_bytes, body, tag, encode, is_int, IsSmall, IsEntry,
  AreEntries, be16-to_host, be32-to_host, narrow_mod, put-fits, code-lt, tag_of-code, narrow-code,
  takes-int, takes-str, marker_case-single, marker_case-value,
}

module _ (fp : Floats) (big : Bool) where
  open fp use {Double, of_int, to_integer}

  -- The queue that stands for the entries.
  abbrev pub item : Entry → List (Item Double)
  item (mark t) = []
  item (int t i) = number (of_int i) ∷ []
  item (str t s) = string s ∷ []

  abbrev pub queue : List Entry → List (Item Double)
  queue [] = []
  queue (e ∷ es) = number (of_int (pos (code (tag e)))) ∷ (item e ++ queue es)

  pub to_integer-IsSmall : (i : ℤ) → IsSmall i → to_integer (of_int i) ≡ i
  to_integer-IsSmall (pos n) h = fp.to_integer-of_pos n (omega arith)
  to_integer-IsSmall (negsuc n) h = fp.to_integer-of_negsuc n (omega arith)

  fetch-IsSmall :
      (i : ℤ) → IsSmall i → fetch_next_as_integer fp big (number (of_int i)) ≡ ok (narrow i)
  unfolding fetch_next_as_integer
  fetch-IsSmall i h = rw (to_integer-IsSmall i h)

  write_marker-code :
      (t : Tag) (size : ℕ) (out : List ℕ)
      → length out < size
      → size < 2 ^ 31
      → write_marker fp big size out (number (of_int (pos (code t))))
        ≡ marker_case (some t) (out ++ code t ∷ [])
  unfolding write_marker
  write_marker-code t size out h w =
      rw (fp.to_integer-of_pos (code t) (omega (arith, code-lt t)), narrow-code t, tag_of-code t)
        (ground (arith, code-lt t, put-fits size out (code t ∷ [])))

  write_value-int :
      (t : Tag) (i : ℤ) (size : ℕ) (out : List ℕ)
      → is_int t ≡ true
      → IsSmall i
      → length out + length (int_bytes t i) ≤ size
      → size < 2 ^ 31
      → write_value fp big t size out (number (of_int i)) ≡ ok (out ++ int_bytes t i)
  unfolding write_value
  write_value-int Tag.uint_8 i size out k h m w =
      rw (fetch-IsSmall i h) (ground (arith, narrow_mod i h))
  write_value-int Tag.dict_entry i size out k h m w =
      rw (fetch-IsSmall i h) (ground (arith, narrow_mod i h))
  write_value-int Tag.int_8 i size out k h m w =
      rw (fetch-IsSmall i h) (ground (arith, narrow_mod i h))
  write_value-int Tag.uint_16 i size out k h m w =
      rw (fetch-IsSmall i h, be16-to_host) (ground (arith, narrow_mod i h))
  write_value-int Tag.big_dict_entry i size out k h m w =
      rw (fetch-IsSmall i h, be16-to_host) (ground (arith, narrow_mod i h))
  write_value-int Tag.int_16 i size out k h m w =
      rw (fetch-IsSmall i h, be16-to_host) (ground (arith, narrow_mod i h))
  write_value-int Tag.uint_32 i size out k h m w =
      rw (fetch-IsSmall i h, be32-to_host) (ground (arith, narrow_mod i h))
  write_value-int Tag.int_32 i size out k h m w =
      rw (fetch-IsSmall i h, be32-to_host) (ground (arith, narrow_mod i h))
  write_value-int _ i size out k h m w = cc

  string_case-fits :
      (n : ℕ) (prefix : ℕ → List ℕ) (pre s : List ℕ) (size : ℕ) (out : List ℕ)
      → prefix (length s) ≡ pre
      → length pre ≡ n
      → length out + length (pre ++ s) ≤ size
      → string_case fp big n prefix size out (string s) ≡ ok (out ++ (pre ++ s))
  unfolding fetch_next_as_string
  string_case-fits n prefix pre s size out e l m = ground (
    arith,
    put-fits size out pre,
    put-fits size (out ++ pre) s,
    length-append out pre,
    length-append pre s,
    append_assoc out pre s,
  )

  write_value-str :
      (t : Tag) (s : List ℕ) (size : ℕ) (out : List ℕ)
      → IsEntry (str t s)
      → length out + length (body (str t s)) ≤ size
      → write_value fp big t size out (string s) ≡ ok (out ++ body (str t s))
  unfolding write_value
  write_value-str Tag.string s size out h m =
      string_case-fits 1 (byte_length fp big) (high_first 1 (length s)) s size out (ground arith)
        refl m
  write_value-str Tag.big_string s size out h m =
      string_case-fits 2 (short_length fp big) (high_first 2 (length s)) s size out
        (rw be16-to_host (ground arith)) refl m
  write_value-str Tag.huge_string s size out h m =
      string_case-fits 4 (word_length fp big) (high_first 4 (length s)) s size out
        (rw be32-to_host (ground arith)) refl m
  write_value-str _ s size out h m = absurd h

  -- One entry, whatever follows it.
  write_loop-entry :
      (e : Entry) (size : ℕ) (out : List ℕ) (more : List (Item Double))
      → IsEntry e
      → length out + suc (length (body e)) ≤ size
      → size < 2 ^ 31
      → write_loop fp big size none out (number (of_int (pos (code (tag e)))) ∷ (item e ++ more))
        ≡ write_loop fp big size none (out ++ code (tag e) ∷ body e) more
  unfolding write_loop
  write_loop-entry (mark t) size out more h m w =
      rw (write_marker-code t size out (omega arith) w, marker_case-single t (out ++ code t ∷ []) h)
  write_loop-entry (int t i) size out more h m w =
      let out' = out ++ code t ∷ [] in
      rw (
        write_marker-code t size out (omega arith) w,
        marker_case-value t out' (takes-int t h.0),
        write_value-int t i size out' h.0 h.1 (omega (arith, length-append out (code t ∷ []))) w,
        append_assoc out (code t ∷ []) (int_bytes t i),
      )
  write_loop-entry (str t s) size out more h m w =
      let out' = out ++ code t ∷ [] in
      rw (
        write_marker-code t size out (omega arith) w,
        marker_case-value t out' (takes-str t s h),
        write_value-str t s size out' h (omega (arith, length-append out (code t ∷ []))),
        append_assoc out (code t ∷ []) (body (str t s)),
      )

  write_loop-entries :
      (es : List Entry) (size : ℕ) (out : List ℕ) (more : List (Item Double))
      → AreEntries es
      → length out + length (encode es) ≤ size
      → size < 2 ^ 31
      → write_loop fp big size none out (queue es ++ more)
        ≡ write_loop fp big size none (out ++ encode es) more
  write_loop-entries [] size out more v m w = rw append-nil
  write_loop-entries (e ∷ es) size out more v m w =
      let out' = out ++ code (tag e) ∷ body e in
      let room = length-append (body e) (encode es) in
      rw (append_assoc (item e) (queue es) more) (
        write_loop-entry e size out (queue es ++ more) v.0 (omega (arith, room)) w
        ∙ write_loop-entries es size out' more v.1
            (omega (arith, room, length-append out (code (tag e) ∷ body e))) w
        ∙ ap (λ o. write_loop fp big size none o more)
            (append_assoc out (code (tag e) ∷ body e) (encode es)))

  -- A queue that stands for entries is written as their encoding, on machines of both byte orders,
  -- if the expected length is not 0, fits an `int` with 64 more, and falls short of the encoding's by at
  -- most 64.
  pub serialize_write_Q-encode :
      (es : List Entry) (len : ℕ)
      → AreEntries es
      → 0 < len
      → len + 64 < 2 ^ 31
      → length (encode es) ≤ len + 64
      → serialize_write_Q fp big (some (queue es)) len true ≡ ok (encode es)
  unfolding serialize_write_Q
  serialize_write_Q-encode es len v h b m =
      let loop : write_loop fp big (len + 64) none [] (queue es) ≡ ok (encode es) =
        rw append-nil at (write_loop-entries es (len + 64) [] [] v (omega arith) b)
        ∙ unfold write_loop in refl in
      ground (arith, loop)

  queue-append : (es fs : List Entry) → queue (es ++ fs) ≡ queue es ++ queue fs
  queue-append [] fs = refl
  queue-append (e ∷ es) fs = rw (queue-append es fs, append_assoc (item e) (queue es) (queue fs))

  word-fault :
      (i : ℤ) (size : ℕ) (out : List ℕ)
      → IsSmall i
      → size < length out + 4
      → write_value fp big Tag.uint_32 size out (number (of_int i)) ≡ fault
  unfolding write_value
  word-fault i size out h m = rw (fetch-IsSmall i h, be32-to_host) (ground arith)

  -- UINT_32 is written without a check of the room: behind entries that leave room for its marker but
  -- for fewer than four bytes more, its value goes past the end of the buffer. The expected length is
  -- not 0 and fits an `int` with 64 more.
  pub uint_32_overflows :
      (es : List Entry) (len n : ℕ)
      → AreEntries es
      → 0 < len
      → len + 64 < 2 ^ 31
      → n < 2 ^ 32
      → length (encode es) < len + 64
      → len + 60 ≤ length (encode es)
      → serialize_write_Q fp big (some (queue (es ++ int Tag.uint_32 (pos n) ∷ []))) len true
        ≡ fault
  unfolding serialize_write_Q write_loop
  uint_32_overflows es len n v h b k lo hi =
      let size = len + 64 in
      let marked = encode es ++ code Tag.uint_32 ∷ [] in
      let loop : write_loop fp big size none [] (queue (es ++ int Tag.uint_32 (pos n) ∷ []))
          ≡ fault =
        rw queue-append (
          write_loop-entries es size [] _ v (omega arith) b
          ∙ rw (
            write_loop,
            write_marker-code Tag.uint_32 size (encode es) lo b,
            word-fault (pos n) size marked k
                (omega (arith, length-append (encode es) (code Tag.uint_32 ∷ []))),
          )) in
      ground (arith, loop)
