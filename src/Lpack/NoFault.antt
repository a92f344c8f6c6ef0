-- ===== src/Lpack/NoFault.antt =====
-- Memory safety of `serialize_write_Q` (src/lua_lpack.c) on every queue whose markers are not UINT_32, as
-- long as no int sum wraps.
pub mod Values
use luaw.Prelude.{
  ℕ, ◌+◌, ◌%◌, ◌^◌, ◌≤◌, ◌<◌, ◌≡◌, ◌≢◌, refl, ap, not, ◌&&◌, ◌++◌, length-append, Bool, true, false,
  List, [], ◌∷◌, Option, none, some, if◌then◌else◌, ltb, length, arith, Bool-cases, inl, inr,
}
use mathlib.Core.List.{reverse}
use luaw.Prelude.Int.{ℤ, pos, negsuc}
use luaw.Lpack.{
  Tag, Result, ok, error, fault, ◌>>=◌, Floats, wrap, signed, be16, be32, be64, tag_of,
}
use luaw.Lpack.Write.{
  Item, number, string, other, put, check_room, to_host, is_single, marker_case,
  fetch_next_as_integer, fetch_next_as_double, fetch_next_as_string, byte_case, short_case,
  long_case, float_case, double_case, string_case, word_case, byte_length, short_length,
  word_length, write_value, write_marker, write_loop, with_buffer, serialize_write_Q,
}
use luaw.Lpack.Entries.{be16-to_host, be32-to_host, put-fits}
use luaw.Lpack.NoFault.Values.{
  Ensures, IsSafe, Ensures->>=, integer-IsSafe, IsWithin, room_is, write_value-IsWithin,
}

module _ (fp : Floats) (big : Bool) where
  open fp use {Double}

  abbrev is_uint_32 : Tag → Bool
  is_uint_32 Tag.uint_32 = true
  is_uint_32 _ = false

  -- What an item is as a marker.
  abbrev tag_from : Result ℤ → Option Tag
  tag_from (ok i) = tag_of i
  tag_from _ = none

  -- The value of the marker UINT_32 is the only one that `no_uint_32` refuses; the flag is whether a
  -- value follows.
  abbrev pub no_uint_32 : Bool → List (Item Double) → Bool
  no_uint_32 value [] = true
  no_uint_32 true (v ∷ q) = no_uint_32 false q
  no_uint_32 false (m ∷ q) = elim (tag_from (fetch_next_as_integer fp big m)) [
    | none ↦ true
    | some t ↦ not (is_uint_32 t) && no_uint_32 (not (is_single t)) q
  ]

  -- What `no_uint_32` says of the queue that is left, with the marker just written.
  Ready : Option Tag → List (Item Double) → Type 0
  Ready none q = no_uint_32 false q ≡ true
  Ready (some t) q = (t ≢ Tag.uint_32) × (no_uint_32 true q ≡ true)

  -- The check on the queue behind a marker.
  abbrev behind : Option Tag → List (Item Double) → Bool
  behind none q = true
  behind (some t) q = not (is_uint_32 t) && no_uint_32 (not (is_single t)) q

  marker_case-Ready :
      (ot : Option Tag) (size : ℕ) (q : List (Item Double)) (out : List ℕ)
      → length out ≤ size
      → behind ot q ≡ true
      → Ensures (λ r. Ready r.0 q × (length r.1 ≤ size)) (marker_case ot out)
  unfolding Ready
  marker_case-Ready none size q out w h = tt
  marker_case-Ready (some Tag.type_marker) size q out w h = tt
  marker_case-Ready (some Tag.uint_32) size q out w h = cc
  marker_case-Ready (some Tag.map_start) size q out w h = (h, w)
  marker_case-Ready (some Tag.array_start) size q out w h = (h, w)
  marker_case-Ready (some Tag.dict_start) size q out w h = (h, w)
  marker_case-Ready (some Tag.record_end) size q out w h = (h, w)
  marker_case-Ready (some Tag.nil) size q out w h = (h, w)
  marker_case-Ready (some Tag.bool_true) size q out w h = (h, w)
  marker_case-Ready (some Tag.bool_false) size q out w h = (h, w)
  marker_case-Ready (some _) size q out w h = ((λ e. cc, h), w)

  -- The marker is fetched, checked and written.
  write_marker-Ready :
      (x : Result ℤ) (size : ℕ) (out : List ℕ) (m : Item Double) (q : List (Item Double))
      → fetch_next_as_integer fp big m ≡ x
      → length out ≤ size
      → size + 8 < 2 ^ 31
      → no_uint_32 false (m ∷ q) ≡ true
      → Ensures (λ r. Ready r.0 q × (length r.1 ≤ size)) (write_marker fp big size out m)
  unfolding write_marker
  write_marker-Ready fault size out m q e w small h = absurd (rw e at (integer-IsSafe fp big m))
  write_marker-Ready (error t) size out m q e w small h = rw e tt
  write_marker-Ready (ok i) size out m q e w small h =
      elim (Bool-cases (ltb size (length out + 1))) [
        | inl full ↦ rw (e, room_is 1 size out w (omega arith) small, full) tt
        | inr room ↦
            let byte : List ℕ = wrap 256 i ∷ [] in
            let fits : length (out ++ byte) ≤ size = ground (arith, length-append out byte) in
            rw (e, room_is 1 size out w (omega arith) small, room)
              (marker_case-Ready (tag_of i) size q (out ++ byte) fits (ground arith))
      ]

  weaken : (size : ℕ) (m : Result (List ℕ)) → IsWithin size m → IsSafe m
  weaken size (ok a) h = tt
  weaken size (error t) h = tt
  weaken size fault h = h

  write_loop-IsSafe :
      (ot : Option Tag) (size : ℕ) (out : List ℕ) (q : List (Item Double))
      → length out ≤ size
      → size + 8 < 2 ^ 31
      → Ready ot q
      → IsSafe (write_loop fp big size ot out q)
  unfolding write_loop Ready
  write_loop-IsSafe none size out [] w small h = tt
  write_loop-IsSafe (some t) size out [] w small h =
      weaken size (write_value fp big t size out other)
        (write_value-IsWithin fp big t size out other w small h.0)
  write_loop-IsSafe none size out (m ∷ q) w small h =
      Ensures->>= (λ r. Ready r.0 q × (length r.1 ≤ size)) (λ _. Unit {0})
        (write_marker fp big size out m) _
        (write_marker-Ready (fetch_next_as_integer fp big m) size out m q refl w small h)
        (λ r k. write_loop-IsSafe r.0 size r.1 q k.1 small k.0)
  write_loop-IsSafe (some t) size out (v ∷ q) w small h =
      Ensures->>= (λ out'. length out' ≤ size) (λ _. Unit {0}) (write_value fp big t size out v) _
        (write_value-IsWithin fp big t size out v w small h.0)
        (λ out' k. write_loop-IsSafe none size out' q k small h.1)

  with_buffer-IsSafe :
      (size : ℕ) (allocated : Bool) (q : List (Item Double))
      → size + 8 < 2 ^ 31
      → no_uint_32 false q ≡ true
      → IsSafe (with_buffer fp big (pos size) allocated q)
  unfolding Ready
  with_buffer-IsSafe size true q small h = write_loop-IsSafe none size [] q (omega arith) small h
  with_buffer-IsSafe size false q small h = tt

  -- A queue of any values, however malformed, is never written outside the buffer if no marker in it is
  -- UINT_32 and the expected length is below 2 ^ 31 - 72, so that the int sums of `CHECK_ROOM` do not
  -- wrap: it is written, or a Lua error is raised.
  pub serialize_write_Q-no_fault :
      (q : List (Item Double)) (len : ℕ) (allocated : Bool)
      → len + 72 < 2 ^ 31
      → no_uint_32 false q ≡ true
      → serialize_write_Q fp big (some q) len allocated ≢ fault
  unfolding serialize_write_Q
  serialize_write_Q-no_fault q len allocated small h e =
      let safe = with_buffer-IsSafe (len + 64) allocated q (omega arith) h in ground (arith, safe)
