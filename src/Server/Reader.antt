-- ===== src/Server/Reader.antt =====
-- `lua_file_reader` of src/luaw_server.c, with which `lua_load` reads a file in blocks.
use luaw.Prelude.{
  take-append-drop, length-drop, length-take, take-all, ℕ, zero, suc, ◌+◌, ◌*◌, ◌/◌, ◌%◌, ◌≤◌, ◌<◌,
  ◌≡◌, refl, ap, sym, ◌∙◌, subst, Bool, true, false, List, [], ◌∷◌, ◌++◌, Option, none, some,
  if◌then◌else◌, ltb, ◌==◌, length, take, drop, arith, Bool-cases, inl, inr,
}
use mathlib.Core.List.{append-nil, append_assoc}

-- `LUA_LOAD_FILE_BUFF_SIZE`.
abbrev pub lua_load_file_buff_size : ℕ
lua_load_file_buff_size = 1024

-- An open file: the bytes that are not yet read, and whether a read has met its end, which is when it
-- got fewer bytes than it asked for. No read fails.
pub record File : Type 0 where
  pub rest : List ℕ
  pub at_eof : Bool

-- `lua_load_buffer_t`, without its buffer.
pub record LoadBuffer : Type 0 where
  pub file : Option File
  pub epilogue : Option (List ℕ)

abbrev pub read_block : File → Option (List ℕ) → Option (List ℕ) × LoadBuffer
read_block f e = if f.at_eof then (e, record { file = none; epilogue = e }) else (
  some (take lua_load_file_buff_size f.rest),
  record {
    file = some (record {
      rest = drop lua_load_file_buff_size f.rest;
      at_eof = ltb (length f.rest) lua_load_file_buff_size;
    });
    epilogue = e;
  },
)

-- The block returned, whose length is `*size`; `none` is `NULL`.
unfoldable pub lua_file_reader : LoadBuffer → Option (List ℕ) × LoadBuffer
lua_file_reader lb = elim lb.file [ none ↦ (none, lb) | some f ↦ read_block f lb.epilogue ]

abbrev after_block :
    Option (List ℕ) → LoadBuffer → Option (List ℕ × LoadBuffer) → Option (List ℕ × LoadBuffer)
after_block none lb next = some ([], lb)
after_block (some []) lb next = some ([], lb)
after_block (some (b ∷ bs)) lb none = none
after_block (some (b ∷ bs)) lb (some (text, end)) = some ((b ∷ bs) ++ text, end)

-- What `lua_load` reads: block after block, up to one that is `NULL` or empty. On fuel.
unfoldable pub load : ℕ → LoadBuffer → Option (List ℕ × LoadBuffer)
load zero lb = none
load (suc fuel) lb =
    let (block, next) = lua_file_reader lb in after_block block next (load fuel next)

abbrev pub opened : List ℕ → Option (List ℕ) → LoadBuffer
opened bytes epilogue = record {
  file = some (record { rest = bytes; at_eof = false });
  epilogue = epilogue;
}

abbrev pub text_of : Option (List ℕ) → List ℕ
text_of none = []
text_of (some e) = e

-- How a file is left: open at its end, or closed.
abbrev pub at_end : Option (List ℕ) → LoadBuffer
at_end e = record { file = some (record { rest = []; at_eof = true }); epilogue = e }

abbrev pub closed : Option (List ℕ) → LoadBuffer
closed e = record { file = none; epilogue = e }

-- What is read of a file, and how its buffer is left.
abbrev pub read_of : List ℕ → Option (List ℕ) → List ℕ × LoadBuffer
read_of bytes e =
    if length bytes % lua_load_file_buff_size == 0
    then (bytes, at_end e)
    else (bytes ++ text_of e, closed e)

-- Each block but the last makes one call, and three more end it.
abbrev pub fuel_for : List ℕ → ℕ
fuel_for bytes = length bytes / lua_load_file_buff_size + 3

-- The calls behind the last block.
load-ended :
    (rest : List ℕ) (e : Option (List ℕ)) (fuel : ℕ)
    → load
        (suc (suc fuel))
        (record { file = some (record { rest = rest; at_eof = true }); epilogue = e })
      ≡ some (text_of e, record { file = none; epilogue = e })
unfolding load lua_file_reader
load-ended rest none fuel = refl
load-ended rest (some []) fuel = refl
load-ended rest (some (b ∷ bs)) fuel = rw (append-nil bs)

-- A block that is not empty, and then what follows it.
load-next :
    (lb next end : LoadBuffer) (block text : List ℕ) (fuel : ℕ)
    → 0 < length block
    → lua_file_reader lb ≡ (some block, next)
    → load fuel next ≡ some (text, end)
    → load (suc fuel) lb ≡ some (block ++ text, end)
unfolding load
load-next lb next end [] text fuel h r l = absurd (omega arith)
load-next lb next end (b ∷ bs) text fuel h r l = rw (r, l) refl

reader-opened :
    (bytes : List ℕ) (e : Option (List ℕ)) (eof : Bool)
    → ltb (length bytes) lua_load_file_buff_size ≡ eof
    → lua_file_reader (opened bytes e) ≡ (
      some (take lua_load_file_buff_size bytes),
      record {
        file = some (record { rest = drop lua_load_file_buff_size bytes; at_eof = eof });
        epilogue = e;
      },
    )
unfolding lua_file_reader
reader-opened bytes e eof h = rw h refl

-- The last block, of fewer bytes than were asked for.
load-last :
    (bytes : List ℕ) (e : Option (List ℕ)) (fuel : ℕ)
    → length bytes < lua_load_file_buff_size
    → load (suc (suc (suc fuel))) (opened bytes e) ≡ some (read_of bytes e)
unfolding load lua_file_reader
load-last [] e fuel h = refl
load-last (b ∷ bs) e fuel h =
    let odd : (length (b ∷ bs) % lua_load_file_buff_size == 0) ≡ false = ground arith in
    let all = take-all lua_load_file_buff_size (b ∷ bs) (omega arith) in
    rw odd (
      subst
        (λ block.
          load (suc (suc (suc fuel))) (opened (b ∷ bs) e)
          ≡ some (block ++ text_of e, record { file = none; epilogue = e }))
        all
        (load-next (opened (b ∷ bs) e) _ _ _ _ (suc (suc fuel)) (omega (arith, ap length all))
          (reader-opened (b ∷ bs) e true (ground arith))
          (load-ended (drop lua_load_file_buff_size (b ∷ bs)) e fuel)))

load-few :
    (bytes : List ℕ) (e : Option (List ℕ)) (fuel : ℕ)
    → length bytes < lua_load_file_buff_size
    → 2 ≤ fuel
    → load (suc fuel) (opened bytes e) ≡ some (read_of bytes e)
load-few bytes e (suc (suc fuel)) h k = load-last bytes e fuel h
load-few _ _ _ h k = absurd (omega arith)

drop-mod :
    (n : ℕ) (bytes : List ℕ)
    → lua_load_file_buff_size ≤ length bytes
    → n ≡ length bytes % lua_load_file_buff_size
    → length (drop lua_load_file_buff_size bytes) % lua_load_file_buff_size ≡ n
drop-mod n bytes h e = omega (arith, length-drop lua_load_file_buff_size bytes)

read_of-drop :
    (bytes : List ℕ) (e : Option (List ℕ))
    → lua_load_file_buff_size ≤ length bytes
    → let next = read_of (drop lua_load_file_buff_size bytes) e in
      read_of bytes e ≡ (take lua_load_file_buff_size bytes ++ next.0, next.1)
read_of-drop bytes e h =
    let parts = take-append-drop lua_load_file_buff_size bytes in
    rw (drop-mod (length bytes % lua_load_file_buff_size) bytes h refl)
      (elim (Bool-cases (length bytes % lua_load_file_buff_size == 0)) [
        | inl even ↦ rw even (ap (λ t. (t, at_end e)) (sym parts))
        | inr odd ↦ rw odd (
            ap (λ t. (t, closed e))
              (ap (λ t. t ++ text_of e) (sym parts)
                ∙ append_assoc (take lua_load_file_buff_size bytes)
                    (drop lua_load_file_buff_size bytes) (text_of e)))
      ])

long→ltb : (n : ℕ) → lua_load_file_buff_size ≤ n → ltb n lua_load_file_buff_size ≡ false
long→ltb n h = ground arith

load-block :
    (bytes : List ℕ) (e : Option (List ℕ)) (fuel : ℕ)
    → lua_load_file_buff_size ≤ length bytes
    → load fuel (opened (drop lua_load_file_buff_size bytes) e)
      ≡ some (read_of (drop lua_load_file_buff_size bytes) e)
    → load (suc fuel) (opened bytes e) ≡ some (read_of bytes e)
load-block bytes e fuel h next =
    let whole =
      load-next (opened bytes e) _ _ _ _ fuel
        (omega (arith, length-take lua_load_file_buff_size bytes))
        (reader-opened bytes e false (long→ltb (length bytes) h)) next in
    whole ∙ ap some (sym (read_of-drop bytes e h))

load-upto :
    (q : ℕ) (bytes : List ℕ) (e : Option (List ℕ)) (fuel : ℕ)
    → length bytes < q * lua_load_file_buff_size + lua_load_file_buff_size
    → q + 3 ≤ fuel
    → load fuel (opened bytes e) ≡ some (read_of bytes e)
load-upto zero bytes e (suc (suc (suc fuel))) h k = load-last bytes e fuel (omega arith)
load-upto (suc q) bytes e (suc fuel) h k =
    elim (Bool-cases (ltb (length bytes) lua_load_file_buff_size)) [
      | inl short ↦ load-few bytes e fuel (ground arith) (omega arith)
      | inr long ↦ load-block bytes e fuel (ground arith) (
          load-upto q (drop lua_load_file_buff_size bytes) e fuel
            (omega (arith, length-drop lua_load_file_buff_size bytes)) (omega arith))
    ]
load-upto _ _ _ _ h k = absurd (omega arith)

-- A file is read to its end in `length / 1024 + 3` calls at most. Behind it the epilogue is read and the
-- file is closed, unless its length is a multiple of 1024: then the epilogue is not read and the file
-- stays open.
pub load-read_of :
    (bytes : List ℕ) (e : Option (List ℕ)) (fuel : ℕ)
    → fuel_for bytes ≤ fuel
    → load fuel (opened bytes e) ≡ some (read_of bytes e)
load-read_of bytes e fuel h =
    load-upto (length bytes / lua_load_file_buff_size) bytes e fuel (omega arith) h
