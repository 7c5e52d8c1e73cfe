-- ===== src/Cursor/Reads.antt =====
-- Rules for what the actions of the reader (Cursor) return in front of given bytes, which the
-- lemmas on parsers use.
use blindkey.Prelude.{
  ℕ, ◌+◌, ◌^◌, ◌≤◌, ◌<◌, ◌≡◌, refl, sym, ap, ◌∙◌, arith, List, [], ◌∷◌, ◌++◌, length, drop,
  length-append, length-drop, append-nil, append_assoc, take-append, drop-append, drop-drop, Bool,
  false,
}
use mathlib.Core.Path.{subst}
use blindkey.Result.{Error, Result, ok, err}
use blindkey.Bytes.{u64_mod, le_bytes, length-le_bytes, from_le_bytes-le_bytes}
use blindkey.Cursor.{
  Cursor, Read, ◌>>=◌, pure, refuse_if, lift, relabel, take, read_u8, read_le, new, run, run,
}

-- The bytes that are not yet read are `s`.
pub record Ahead (c : Cursor) (s : List ℕ) : Type 0 where
  pub fits : c.pos ≤ length c.buf
  pub small : length c.buf < u64_mod
  pub sight : drop c.pos c.buf ≡ s

abbrev pub skip : ℕ → Cursor → Cursor
skip n c = record c { pos = c.pos + n }

pub length-Ahead : {c : Cursor} {s : List ℕ} → Ahead c s → length c.buf ≡ c.pos + length s
length-Ahead {c} {s} h = omega (arith, ap length h.sight, length-drop c.pos c.buf, h.fits)

pub Ahead-skip :
    {c : Cursor} (bs : List ℕ) {s : List ℕ} → Ahead c (bs ++ s) → Ahead (skip (length bs) c) s
Ahead-skip {c} bs {s} h = record {
  fits = omega (arith, length-Ahead h, length-append bs s);
  small = h.small;
  sight =
      sym (drop-drop c.pos (length bs) c.buf) ∙ ap (drop (length bs)) h.sight ∙ drop-append bs s;
}

pub Ahead-new : (s : List ℕ) → length s < u64_mod → Ahead (new s) s
Ahead-new s h = record { fits = omega arith; small = h; sight = refl }

-- In front of `bs`, whatever follows, `p` returns `a` and moves over `bs`.
pub record Reads {ℓ} {A : Type ℓ} (p : Read A) (bs : List ℕ) (a : A) : Type ℓ where
  pub at : (c : Cursor) (s : List ℕ) → Ahead c (bs ++ s) → p c ≡ ok (a, skip (length bs) c)

pub Reads-pure {ℓ} : {A : Type ℓ} (a : A) → Reads (pure a) [] a
Reads-pure a = record { at = λ c s h. ap (λ (n : ℕ). ok (a, record c { pos = n })) (omega arith) }

pub Reads-bind {ℓ κ} :
    {A : Type ℓ} {B : Type κ} {p : Read A} (f : A → Read B) {bs bs' : List ℕ} {a : A} {b : B}
    → Reads p bs a
    → Reads (f a) bs' b
    → Reads (p >>= f) (bs ++ bs') b
Reads-bind {p} f {bs} {bs'} {a} {b} hp hf = record {
  at = λ c s h.
      let h' : Ahead c (bs ++ (bs' ++ s)) = rw append_assoc at h in
      rw (hp.at c (bs' ++ s) h', ◌>>=◌)
        (hf.at (skip (length bs) c) s (Ahead-skip bs h')
          ∙ ap (λ (n : ℕ). ok (b, record c { pos = n })) (omega (arith, length-append bs bs')));
}

pub Reads-cast {ℓ} :
    {A : Type ℓ} {p : Read A} {bs bs' : List ℕ} {a : A} → bs ≡ bs' → Reads p bs a → Reads p bs' a
Reads-cast {p} {a} e h = subst (λ t. Reads p t a) e h

pub Reads-take : (bs : List ℕ) → Reads (take (length bs)) bs bs
unfolding take
Reads-take bs = record {
  at = λ c s h.
      let room : c.pos + length bs ≤ length c.buf = (Ahead-skip bs h).fits in
      rw (h.sight, take-append) (ground (arith, room, h.small));
}

pub Reads-take_at : (n : ℕ) (bs : List ℕ) → length bs ≡ n → Reads (take n) bs bs
Reads-take_at n bs e = rw (← e) (Reads-take bs)

pub Reads-read_u8 : (b : ℕ) → Reads read_u8 (b ∷ []) b
unfolding read_u8
Reads-read_u8 b = Reads-bind _ (Reads-take (b ∷ [])) (Reads-pure b)

pub Reads-read_le : (w n : ℕ) → n < 256 ^ w → Reads (read_le w) (le_bytes w n) n
unfolding read_le
Reads-read_le w n h = Reads-cast (append-nil (le_bytes w n)) (
    Reads-bind _ (Reads-take_at w (le_bytes w n) (length-le_bytes w n))
      (rw (from_le_bytes-le_bytes w n h) (Reads-pure n)))

pub Reads-refuse_if : (test : Bool) (e : Error) → test ≡ false → Reads (refuse_if test e) [] tt
Reads-refuse_if test e h = rw h (Reads-pure tt)

pub Reads-relabel {ℓ} :
    {A : Type ℓ} {p : Read A} {bs : List ℕ} {a : A} (e : Error)
    → Reads p bs a
    → Reads (relabel e p) bs a
Reads-relabel e h = record { at = λ c s k. rw (h.at c s k) refl }

pub Reads-lift {ℓ} : {A : Type ℓ} {r : Result A} {a : A} → r ≡ ok a → Reads (lift r) [] a
Reads-lift {a} h = rw h (Reads-pure a)

-- One step of a `do` block, and the end of a run.
pub >>=-ok {ℓ κ} :
    {A : Type ℓ} {B : Type κ} (m : Read A) (f : A → Read B) {c c' : Cursor} {a : A}
    → m c ≡ ok (a, c')
    → (m >>= f) c ≡ f a c'
>>=-ok m f h = rw (h, ◌>>=◌) refl

pub run-ok {ℓ} :
    {A : Type ℓ} (m : Read A) (bytes : List ℕ) {c : Cursor} {a : A}
    → m (new bytes) ≡ ok (a, c)
    → run m bytes ≡ ok a
run-ok m bytes h = rw (h, run) refl

run_result {ℓ} :
    {A : Type ℓ} (r : Result (A × Cursor)) {a : A}
    → elim r [ ok (b, c) ↦ ok b | err e ↦ err e ] ≡ ok a
    → (c : Cursor) × (r ≡ ok (a, c))
run_result (ok (b, c)) h = (c, ap (λ t. ok (t, c)) cc)
run_result (err e) h = cc

pub run-eq-ok {ℓ} :
    {A : Type ℓ} (m : Read A) (bytes : List ℕ) {a : A}
    → run m bytes ≡ ok a
    → (c : Cursor) × (m (new bytes) ≡ ok (a, c))
run-eq-ok m bytes h = run_result (m (new bytes)) h

pub run-err {ℓ} :
    {A : Type ℓ} (m : Read A) (bytes : List ℕ) {e : Error}
    → m (new bytes) ≡ err e
    → run m bytes ≡ err e
run-err m bytes h = rw (h, run) refl
