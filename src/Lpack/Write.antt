-- ===== src/Lpack/Write.antt =====
-- src/lua_lpack.c: `serialize_write_Q`, which writes a queue of Lua values into a buffer.
use luaw.Prelude.{
  ℕ, ◌+◌, ◌%◌, ◌^◌, Bool, true, false, List, [], ◌∷◌, ◌++◌, Option, none, some, if◌then◌else◌, ltb,
  length, ◌==◌, not,
}
use mathlib.Core.List.{reverse}
use luaw.Prelude.Int.{ℤ, pos, negsuc}
use luaw.Lpack.{
  Tag, Result, ok, error, fault, ◌>>=◌, wrap, signed, low_first, be16, be32, be64, Floats, tag_of,
  narrow,
}

-- A value in the queue: a number, a string, or anything else. Behind its end there is nil.
pub data Item (D : Type 0) : Type 0 where
  number : D → Item D
  string : List ℕ → Item D
  other : Item D

-- The bytes of a `k`-byte unsigned value on a machine of either byte order.
abbrev pub to_host : Bool → ℕ → ℕ → List ℕ
to_host big k u = if big then reverse (low_first k u) else low_first k u

-- `pos + need > size` for a `need` that is an `int`: the sum is an `int` too, and wraps.
abbrev pub exceeds : ℕ → ℤ → Bool
exceeds size (pos n) = ltb size n
exceeds size (negsuc n) = false

-- `CHECK_ROOM` with an `int`: 1, or the `datasize` of a number.
abbrev pub check_room {ℓ} : {A : Type ℓ} → ℕ → List ℕ → ℕ → Result A → Result A
check_room buffsize out need k =
    if exceeds buffsize (narrow (pos (length out + need)))
    then error "Run out of buffer in serialize_write_Q, wrong expected size supplied"
    else k

-- `CHECK_ROOM` with a string's `datasize+len`, a `size_t`: no string in memory is so long that the sum
-- wraps.
abbrev pub check_string_room {ℓ} : {A : Type ℓ} → ℕ → List ℕ → ℕ → Result A → Result A
check_string_room buffsize out need k =
    if ltb buffsize (length out + need)
    then error "Run out of buffer in serialize_write_Q, wrong expected size supplied"
    else k

-- A write behind the bytes written so far; past the end of the buffer it is a fault.
abbrev pub put : ℕ → List ℕ → List ℕ → Result (List ℕ)
put buffsize out bs = if ltb buffsize (length out + length bs) then fault else ok (out ++ bs)

-- The markers that stand for themselves; `TYPE_MARKER` is none that may be written.
abbrev pub is_single : Tag → Bool
is_single Tag.map_start = true
is_single Tag.array_start = true
is_single Tag.dict_start = true
is_single Tag.record_end = true
is_single Tag.nil = true
is_single Tag.bool_true = true
is_single Tag.bool_false = true
is_single _ = false

-- The marker's case: whether a value follows.
abbrev pub marker_case : Option Tag → List ℕ → Result (Option Tag × List ℕ)
marker_case none out = error "Invalid marker %d encountered"
marker_case (some Tag.type_marker) out = error "Invalid marker %d encountered"
marker_case (some t) out = ok ((if is_single t then none else some t), out)

module _ (fp : Floats) (big : Bool) where
  open fp use {
    Double, to_integer, to_int64, is_nonzero, float_bits, double_bits, number_of_string,
    string_of_number,
  }

  -- `lua_isnumber` with `lua_tonumber`, and `lua_tolstring`.
  abbrev as_number : Item Double → Option Double
  as_number (number d) = some d
  as_number (string s) = number_of_string s
  as_number other = none

  abbrev as_string : Item Double → Option (List ℕ)
  as_string (number d) = some (string_of_number d)
  as_string (string s) = some s
  as_string other = none

  abbrev int_of_number : Option Double → Result ℤ
  int_of_number none = error "Invalid value %s found where %s was expected"
  int_of_number (some d) = ok (narrow (to_integer d))

  abbrev nonzero_number : Option Double → Result Double
  nonzero_number none = error "Invalid value %s found where %s was expected"
  nonzero_number (some d) =
      if is_nonzero d then ok d else error "Invalid value %s found where %s was expected"

  abbrev text_of : Option (List ℕ) → Result (List ℕ)
  text_of none = error "Invalid value found where %s was expected"
  text_of (some s) = ok s

  unfoldable pub fetch_next_as_integer : Item Double → Result ℤ
  fetch_next_as_integer v = int_of_number (as_number v)

  -- 0 is refused like a value that is no number.
  unfoldable pub fetch_next_as_double : Item Double → Result Double
  fetch_next_as_double v = nonzero_number (as_number v)

  unfoldable pub fetch_next_as_string : Item Double → Result (List ℕ)
  fetch_next_as_string v = text_of (as_string v)

  -- The cases of the `switch` that take a value, of one, two, four or eight bytes, or a string.
  abbrev pub byte_case : ℕ → List ℕ → Item Double → Result (List ℕ)
  byte_case size out v =
      check_room size out 1 (fetch_next_as_integer v >>= λ i. put size out (wrap 256 i ∷ []))

  abbrev pub short_case : ℕ → List ℕ → Item Double → Result (List ℕ)
  short_case size out v =
      check_room size out 2
        (fetch_next_as_integer v >>= λ i. put size out (be16 big (to_host big 2 (wrap (2 ^ 16) i))))

  -- UINT_32 has no `CHECK_ROOM`; INT_32 has one.
  abbrev pub word_case : ℕ → List ℕ → Item Double → Result (List ℕ)
  word_case size out v =
      fetch_next_as_integer v >>= λ i. put size out (be32 big (to_host big 4 (wrap (2 ^ 32) i)))

  abbrev pub long_case : ℕ → List ℕ → Item Double → Result (List ℕ)
  long_case size out v = check_room size out 8 (
      fetch_next_as_double v >>= λ d.
      put size out (be64 big (to_host big 8 (wrap (2 ^ 64) (to_int64 d)))))

  abbrev pub float_case : ℕ → List ℕ → Item Double → Result (List ℕ)
  float_case size out v =
      check_room size out 4
        (fetch_next_as_double v >>= λ d. put size out (be32 big (to_host big 4 (float_bits d))))

  abbrev pub double_case : ℕ → List ℕ → Item Double → Result (List ℕ)
  double_case size out v =
      check_room size out 8
        (fetch_next_as_double v >>= λ d. put size out (be64 big (to_host big 8 (double_bits d))))

  -- The length of a string, in one, two or four bytes.
  abbrev pub byte_length : ℕ → List ℕ
  byte_length n = (n % 256) ∷ []

  abbrev pub short_length : ℕ → List ℕ
  short_length n = be16 big (to_host big 2 (n % 2 ^ 16))

  abbrev pub word_length : ℕ → List ℕ
  word_length n = be32 big (to_host big 4 (n % 2 ^ 32))

  -- The string behind its length, which `prefix` writes in `datasize` bytes.
  abbrev pub string_case : ℕ → (ℕ → List ℕ) → ℕ → List ℕ → Item Double → Result (List ℕ)
  string_case datasize prefix size out v = fetch_next_as_string v >>= λ s.
      check_string_room size out (datasize + length s)
        (put size out (prefix (length s)) >>= λ out'. put size out' s)

  unfoldable pub write_value : Tag → ℕ → List ℕ → Item Double → Result (List ℕ)
  write_value Tag.uint_8 size out v = byte_case size out v
  write_value Tag.dict_entry size out v = byte_case size out v
  write_value Tag.uint_16 size out v = short_case size out v
  write_value Tag.big_dict_entry size out v = short_case size out v
  write_value Tag.uint_32 size out v = word_case size out v
  write_value Tag.int_8 size out v = byte_case size out v
  write_value Tag.int_16 size out v = short_case size out v
  write_value Tag.int_32 size out v = check_room size out 4 (word_case size out v)
  write_value Tag.int_64 size out v = long_case size out v
  write_value Tag.float size out v = float_case size out v
  write_value Tag.double size out v = double_case size out v
  write_value Tag.string size out v = string_case 1 byte_length size out v
  write_value Tag.big_string size out v = string_case 2 short_length size out v
  write_value Tag.huge_string size out v = string_case 4 word_length size out v
  write_value _ size out v = error "Invalid marker %d encountered"

  unfoldable pub write_marker : ℕ → List ℕ → Item Double → Result (Option Tag × List ℕ)
  unfolding fetch_next_as_integer
  write_marker size out m = fetch_next_as_integer m >>= λ i.
      check_room size out 1 (put size out (wrap 256 i ∷ []) >>= λ out'. marker_case (tag_of i) out')

  -- The loop, which expects a marker, or the value of a marker just written. `out` is the buffer up
  -- to `pos`.
  unfoldable pub write_loop : ℕ → Option Tag → List ℕ → List (Item Double) → Result (List ℕ)
  write_loop size none out [] = ok out
  write_loop size (some tag) out [] = write_value tag size out other
  write_loop size none out (m ∷ rest) =
      write_marker size out m >>= λ r. write_loop size r.0 r.1 rest
  write_loop size (some tag) out (v ∷ rest) =
      write_value tag size out v >>= λ out'. write_loop size none out' rest

  -- The buffer, whose size is the `int` that `malloc` is given as a `size_t`: it gets no buffer for one
  -- below 0, since no object is that large.
  abbrev pub with_buffer : ℤ → Bool → List (Item Double) → Result (List ℕ)
  with_buffer (negsuc k) allocated q = error "Could not allocate memory for serialize_write_Q"
  with_buffer (pos size) allocated q =
      if not allocated
      then error "Could not allocate memory for serialize_write_Q"
      else write_loop size none [] q

  -- The queue, `none` if it is no table, the expected length as a `size_t`, and whether `malloc` gave
  -- a buffer.
  unfoldable pub serialize_write_Q : Option (List (Item Double)) → ℕ → Bool → Result (List ℕ)
  serialize_write_Q none len allocated = error "Invalid WriteQ, not a table"
  serialize_write_Q (some q) len allocated =
      if len == 0
      then error "Invalid write buffer length specified"
      else with_buffer (signed (2 ^ 31) ((len + 64) % 2 ^ 32)) allocated q
