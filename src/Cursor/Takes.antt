-- ===== src/Cursor/Takes.antt =====
-- Rules for which bytes the actions of the reader (Cursor) have taken, which the lemmas on parsers
-- use.
use blindkey.Prelude.{
  ℕ, ◌+◌, ◌^◌, ◌≤◌, ◌<◌, ◌≡◌, refl, sym, ap, ◌∙◌, arith, List, [], ◌∷◌, ◌++◌, length, All, drop,
  take as take_list, append-nil, append_assoc, length-take, length-drop, take-append-drop,
  drop-drop, length-append, All-append, All-take, All-drop, Bool, true, false,
}
use mathlib.Core.Path.{subst}
use blindkey.Result.{Error, Result, ok, err, map_err}
use blindkey.Bytes.{IsByte, u64_mod, le_bytes, le_bytes-from_le_bytes, from_le_bytes-lt}
use blindkey.Cursor.{
  Cursor, Read, ◌>>=◌, pure, fail, refuse_if, lift, relabel, take, read_u8, head_or_zero, read_le,
  new,
}

-- The position lies in a buffer of bytes that memory can hold.
pub record Fits (c : Cursor) : Type 0 where
  pub within : c.pos ≤ length c.buf
  pub small : length c.buf < u64_mod
  pub bytes : All IsByte c.buf

-- `c'` is `c` moved over the bytes `bs`.
pub record Moves (c : Cursor) (bs : List ℕ) (c' : Cursor) : Type 0 where
  pub fits : Fits c'
  pub same : c'.buf ≡ c.buf
  pub moved : c'.pos ≡ c.pos + length bs
  pub sight : drop c.pos c.buf ≡ bs ++ drop c'.pos c'.buf
  pub bytes : All IsByte bs

-- Where `p` succeeds it has moved over bytes `bs` that meet `Q` with its result.
pub record Takes {ℓ κ} {A : Type ℓ} (p : Read A) (Q : A → List ℕ → Type κ) : Type (ℓ ⊔ κ) where
  pub at :
      (c : Cursor) (a : A) (c' : Cursor)
      → Fits c
      → p c ≡ ok (a, c')
      → (bs : List ℕ) × Moves c bs c' × Q a bs

Moves-trans :
    {c c' c'' : Cursor} {bs bs' : List ℕ}
    → Moves c bs c'
    → Moves c' bs' c''
    → Moves c (bs ++ bs') c''
Moves-trans {bs} {bs'} m n = record {
  fits = n.fits;
  same = n.same ∙ m.same;
  moved = omega (arith, m.moved, n.moved, length-append bs bs');
  sight = m.sight ∙ ap (λ t. bs ++ t) n.sight ∙ sym (append_assoc bs bs' _);
  bytes = All-append IsByte bs bs' m.bytes n.bytes;
}

pub Takes-pure {ℓ κ} : {A : Type ℓ} {Q : A → List ℕ → Type κ} (a : A) → Q a [] → Takes (pure a) Q
Takes-pure {Q} a q = record {
  at = λ c b c' h e.
      let ea : a ≡ b = cc in
      let ec : c ≡ c' = cc in
      (
        [],
        subst (λ t. Moves c [] t) ec
            (record { fits = h; same = refl; moved = omega arith; sight = refl; bytes = tt }),
        subst (λ t. Q t []) ea q,
      );
}

pub Takes-fail {ℓ κ} : {A : Type ℓ} {Q : A → List ℕ → Type κ} (e : Error) → Takes (fail e) Q
Takes-fail e = record { at = λ c b c' h e'. cc }

pub bind_result {ℓ κ} :
    {A : Type ℓ} {B : Type κ} (f : A → Read B) (r : Result (A × Cursor)) {b : B} {c' : Cursor}
    → elim r [ ok (a, c₁) ↦ f a c₁ | err e ↦ err e ] ≡ ok (b, c')
    → (a : A) × (c₁ : Cursor) × (r ≡ ok (a, c₁)) × (f a c₁ ≡ ok (b, c'))
bind_result f (ok (a, c₁)) h = (a, c₁, refl, h)
bind_result f (err e) h = cc

-- The rest of an action is proved for every result of its first part.
pub Takes-bind {ℓ κ μ ν} :
    {A : Type ℓ} {B : Type κ} {p : Read A} {f : A → Read B} (Q : A → List ℕ → Type μ)
    {R : B → List ℕ → Type ν}
    → Takes p Q
    → ((a : A) (bs : List ℕ) → Q a bs → All IsByte bs → Takes (f a) (λ b bs'. R b (bs ++ bs')))
    → Takes (p >>= f) R
Takes-bind {p} {f} Q {R} hp hf = record {
  at = λ c b c' h e.
      let (a, c₁, e₁, e₂) = bind_result f (p c) e in
      let (bs, m, q) = hp.at c a c₁ h e₁ in
      let (bs', m', r) = (hf a bs q m.bytes).at c₁ b c' m.fits e₂ in
      (bs ++ bs', Moves-trans m m', r);
}

pub Takes-refuse_if {κ} :
    (test : Bool) (e : Error) {Q : Unit {0} → List ℕ → Type κ}
    → (test ≡ false → Q tt [])
    → Takes (refuse_if test e) Q
Takes-refuse_if true e h = Takes-fail e
Takes-refuse_if false e h = Takes-pure tt (h refl)

relabel_result {ℓ} : {A : Type ℓ} (e : Error) (r : Result A) {a : A} → map_err e r ≡ ok a → r ≡ ok a
relabel_result e (ok a) h = h
relabel_result e (err x) h = cc

pub Takes-relabel {ℓ κ} :
    {A : Type ℓ} {p : Read A} {Q : A → List ℕ → Type κ} (e : Error)
    → Takes p Q
    → Takes (relabel e p) Q
Takes-relabel {p} e hp = record { at = λ c a c' h k. hp.at c a c' h (relabel_result e (p c) k) }

pub Takes-weaken {ℓ κ μ} :
    {A : Type ℓ} {p : Read A} {Q : A → List ℕ → Type κ} {R : A → List ℕ → Type μ}
    → ((a : A) (bs : List ℕ) → All IsByte bs → Q a bs → R a bs)
    → Takes p Q
    → Takes p R
Takes-weaken f hp = record {
  at = λ c a c' h k. let (bs, m, q) = hp.at c a c' h k in (bs, m, f a bs m.bytes q);
}

-- What `take n` returns is what it has taken.
pub Takes-take : (n : ℕ) → Takes (take n) (λ a bs. (bs ≡ a) × (length bs ≡ n))
unfolding take
Takes-take n = record {
  at = λ c a c' h e.
      let bs : List ℕ = take_list n (drop c.pos c.buf) in
      let room : c.pos + n ≤ length c.buf = ground arith in
      let ea : bs ≡ a = ground arith in
      let count : length bs ≡ n =
        omega (arith, room, length-take n (drop c.pos c.buf), length-drop c.pos c.buf) in
      let ec : record c { pos = c.pos + n } ≡ c' = ground arith in
      (
        bs,
        subst (λ t. Moves c bs t) ec
            (record {
              fits = record { within = room; small = h.small; bytes = h.bytes };
              same = refl;
              moved = omega (arith, count);
              sight =
                  sym (take-append-drop n (drop c.pos c.buf))
                  ∙ ap (λ t. bs ++ t) (drop-drop c.pos n c.buf);
              bytes = All-take IsByte n _ (All-drop IsByte c.pos c.buf h.bytes);
            }),
        (ea, count),
      );
}

one_byte : (bs : List ℕ) → length bs ≡ 1 → bs ≡ head_or_zero bs ∷ []
unfolding head_or_zero
one_byte [] h = absurd (omega arith)
one_byte (b ∷ []) h = refl
one_byte (b ∷ b' ∷ bs) h = absurd (omega arith)

pub Takes-read_u8 : Takes read_u8 (λ b bs. bs ≡ b ∷ [])
unfolding read_u8
Takes-read_u8 =
    Takes-bind _ (Takes-take 1)
      (λ a bs q hb. Takes-pure _ (append-nil bs ∙ rw (← q.0) (one_byte bs q.1)))

-- A little-endian read takes the encoding of its result, which fits the width.
pub Takes-read_le : (w : ℕ) → Takes (read_le w) (λ n bs. (bs ≡ le_bytes w n) × (n < 256 ^ w))
unfolding read_le
Takes-read_le w = Takes-bind _ (Takes-take w) (λ a bs q hb.
    Takes-pure _
      (rw (append-nil, ← q.0, ← q.1) (sym (le_bytes-from_le_bytes bs hb), from_le_bytes-lt bs hb)))

pub Fits-new : (bytes : List ℕ) → All IsByte bytes → length bytes < u64_mod → Fits (new bytes)
Fits-new bytes hb h = record { within = omega arith; small = h; bytes = hb }

pub Takes-guard :
    (test : Bool) (e : Error) → Takes (refuse_if test e) (λ _ bs. (bs ≡ []) × (test ≡ false))
Takes-guard test e = Takes-refuse_if test e (λ f. (refl, f))

pub Takes-lift {ℓ} : {A : Type ℓ} (r : Result A) → Takes (lift r) (λ a bs. (bs ≡ []) × (r ≡ ok a))
Takes-lift (ok a) = Takes-pure a (refl, refl)
Takes-lift (err e) = Takes-fail e
