-- ===== src/Frecency/RoundTrip.antt =====
-- `serialize` and `parse` of crates/blindkey-core/src/frecency.rs together.
use blindkey.Prelude.{
  ℕ, zero, suc, ◌%◌, ◌<◌, ◌≡◌, refl, sym, ap, ◌∙◌, arith, not, true, false, Bool-cases, inl, inr,
  List, [], ◌∷◌, ◌++◌, length, take, drop, append-nil, append_assoc, length-append, take-all,
  take-append_at, drop-append_at, drop-drop, All, ltb, ◌==◌, bytes_eq, bytes_eq→eq,
}
use blindkey.Result.{ok, err, body_malformed}
use blindkey.Bytes.{
  u32_mod, u64_mod, le_bytes, from_le_bytes, length-le_bytes, from_le_bytes-le_bytes,
}
use blindkey.Frecency.{
  Usage, FrecencyStore, record_len, key_lt, insert, serialize_entry, serialize, parse_chunks, parse,
}

-- Each key is before all that follow: the order in which a map is visited.
abbrev pub IsSorted : FrecencyStore → Type 0
IsSorted [] = Unit
IsSorted (e ∷ s) = All (λ e'. key_lt e.0 e'.0 ≡ true) s × IsSorted s

-- Keys of 16 bytes, counts of 32 bits and times of 64.
abbrev pub IsEntry : List ℕ × Usage → Type 0
IsEntry e = (length e.0 ≡ 16) × (e.1.uses < u32_mod) × (e.1.last_used < u64_mod)

key_lt_irrefl : (xs : List ℕ) → key_lt xs xs ≡ false
unfolding key_lt
key_lt_irrefl [] = refl
key_lt_irrefl (x ∷ xs) = ground (arith, key_lt_irrefl xs)

key_lt-asym : (xs ys : List ℕ) → key_lt xs ys ≡ true → key_lt ys xs ≡ false
unfolding key_lt
key_lt-asym [] [] h = refl
key_lt-asym [] (y ∷ ys) h = refl
key_lt-asym (x ∷ xs) [] h = cc
key_lt-asym (x ∷ xs) (y ∷ ys) h = ground (arith, key_lt-asym xs ys)

apart : (xs ys : List ℕ) → key_lt xs ys ≡ true → bytes_eq xs ys ≡ false
apart xs ys h = elim (Bool-cases (bytes_eq xs ys)) [
  | inl same ↦
      let e : xs ≡ ys = bytes_eq→eq xs ys same in
      let t : key_lt ys ys ≡ true = (rw e at h) in let f = key_lt_irrefl ys in cc
  | inr other ↦ other
]

-- A key after all others goes to the end.
insert-last :
    (s : FrecencyStore) (id : List ℕ) (u : Usage)
    → All (λ e. key_lt e.0 id ≡ true) s
    → insert s id u ≡ s ++ (id, u) ∷ []
unfolding insert
insert-last [] id u h = refl
insert-last (e ∷ s) id u (h, hs) =
    rw (apart e.0 id h, key_lt-asym e.0 id h) (ap (λ r. e ∷ r) (insert-last s id u hs))

-- In a sorted store what stands in front of an entry is before it.
middle :
    (d : List ℕ × Usage) (done : FrecencyStore) (e : List ℕ × Usage) (s : FrecencyStore)
    → All (λ e'. key_lt d.0 e'.0 ≡ true) (done ++ e ∷ s)
    → key_lt d.0 e.0 ≡ true
middle d [] e s h = h.0
middle d (d' ∷ done) e s h = middle d done e s h.1

IsSorted-front :
    (done : FrecencyStore) (e : List ℕ × Usage) (s : FrecencyStore)
    → IsSorted (done ++ e ∷ s)
    → All (λ d. key_lt d.0 e.0 ≡ true) done
IsSorted-front [] e s h = tt
IsSorted-front (d ∷ done) e s (h, hs) = (middle d done e s h, IsSorted-front done e s hs)

length-serialize_entry : (e : List ℕ × Usage) → IsEntry e → length (serialize_entry e) ≡ record_len
unfolding serialize_entry
length-serialize_entry e v = omega (
  arith,
  length-append e.0 (le_bytes 4 e.1.uses ++ le_bytes 8 e.1.last_used),
  length-append (le_bytes 4 e.1.uses) (le_bytes 8 e.1.last_used),
  length-le_bytes 4 e.1.uses,
  length-le_bytes 8 e.1.last_used,
  v.0,
)

fields :
    (e : List ℕ × Usage)
    → IsEntry e
    → (take 16 (serialize_entry e) ≡ e.0)
      × (from_le_bytes (take 4 (drop 16 (serialize_entry e))) ≡ e.1.uses)
      × (from_le_bytes (take 8 (drop 20 (serialize_entry e))) ≡ e.1.last_used)
unfolding serialize_entry
fields e v =
    let a : List ℕ = le_bytes 4 e.1.uses in
    let b : List ℕ = le_bytes 8 e.1.last_used in
    let size_a = length-le_bytes 4 e.1.uses in
    let size_b = length-le_bytes 8 e.1.last_used in
    let after : drop 16 (e.0 ++ (a ++ b)) ≡ a ++ b = drop-append_at 16 e.0 (a ++ b) v.0 in
    let last : drop 20 (e.0 ++ (a ++ b)) ≡ b =
      sym (drop-drop 16 4 (e.0 ++ (a ++ b))) ∙ ap (drop 4) after ∙ drop-append_at 4 a b size_a in
    (
      take-append_at 16 e.0 (a ++ b) v.0,
      rw (after, take-append_at 4 a b size_a)
          (from_le_bytes-le_bytes 4 e.1.uses (omega (arith, v.1))),
      rw (last, take-all 8 b (omega (arith, size_b)))
          (from_le_bytes-le_bytes 8 e.1.last_used (omega (arith, v.2))),
    )

parse_chunks-serialize :
    (fuel : ℕ) (done s : FrecencyStore)
    → length (serialize s) < fuel
    → All IsEntry s
    → IsSorted (done ++ s)
    → parse_chunks fuel (serialize s) done ≡ done ++ s
unfolding parse_chunks serialize
parse_chunks-serialize zero done s hf h hs = absurd (omega arith)
parse_chunks-serialize (suc fuel) done [] hf h hs = sym (append-nil done)
parse_chunks-serialize (suc fuel) done (e ∷ s) hf (he, h) hs =
    let size = length-serialize_entry e he in
    let total = length-append (serialize_entry e) (serialize s) in
    let enough : ltb (length (serialize_entry e ++ serialize s)) record_len ≡ false =
      ground (arith, size, total) in
    let front = take-append_at record_len (serialize_entry e) (serialize s) size in
    let back = drop-append_at record_len (serialize_entry e) (serialize s) size in
    let (key, uses, last) = fields e he in
    rw (enough, front, back, key, uses, last, insert-last done e.0 e.1 (IsSorted-front done e s hs))
      (parse_chunks-serialize fuel (done ++ e ∷ []) s (omega (arith, hf, size, total)) h
          (rw append_assoc hs)
        ∙ append_assoc done (e ∷ []) s)

length-serialize : (s : FrecencyStore) → All IsEntry s → length (serialize s) % record_len ≡ 0
unfolding serialize
length-serialize [] h = refl
length-serialize (e ∷ s) (he, h) = omega (
  arith,
  length-append (serialize_entry e) (serialize s),
  length-serialize_entry e he,
  length-serialize s h,
)

-- A store in the order of its keys, of 16 bytes each, with counts of 32 bits and times of 64, is parsed
-- back from its records.
pub parse-serialize : (s : FrecencyStore) → All IsEntry s → IsSorted s → parse (serialize s) ≡ ok s
unfolding parse
parse-serialize s h hs =
    let whole : not (length (serialize s) % record_len == 0) ≡ false =
      rw (length-serialize s h) refl in
    rw whole (ap ok (parse_chunks-serialize (suc (length (serialize s))) [] s (omega arith) h hs))

-- What is not a whole number of records is refused.
pub parse_ragged :
    (s : FrecencyStore) (tail : List ℕ)
    → All IsEntry s
    → 0 < length tail
    → length tail < record_len
    → parse (serialize s ++ tail) ≡ err body_malformed
unfolding parse
parse_ragged s tail h some_left few =
    let size : length (serialize s ++ tail) % record_len ≡ length tail =
      omega (arith, length-append (serialize s) tail, length-serialize s h) in
    let ragged : not (length (serialize s ++ tail) % record_len == 0) ≡ true =
      ground (arith, size) in
    rw ragged refl
