-- ===== src/Agent/Toy.antt =====
-- A printed form for the tests: numbers and lengths as they are, one value after the other.
use blindkey.Prelude.{
  ℕ, zero, suc, ◌≡◌, refl, Option, none, some, List, [], ◌∷◌, ◌++◌, length, true, if◌then◌else◌,
  append_assoc, append-nil,
}
use blindkey.Agent.Handle.{Destination, AgentHandle, HandleStore}
use blindkey.Agent.Text.{is_blank, is_whitespace}
use blindkey.Agent.Store.{Json}

abbrev Parse {ℓ} : Type ℓ → Type ℓ
Parse A = List ℕ → Option (A × List ℕ)

abbrev then_parse {ℓ κ} :
    {A : Type ℓ} {B : Type κ} → Option (A × List ℕ) → (A → Parse B) → Option (B × List ℕ)
then_parse none next = none
then_parse (some (a, rest)) next = next a rest

parse_number : Parse ℕ
parse_number [] = none
parse_number (n ∷ rest) = some (n, rest)

parse_items {ℓ} : {A : Type ℓ} → Parse A → ℕ → Parse (List A)
parse_items parse zero input = some ([], input)
parse_items parse (suc n) input =
    then_parse (parse input)
      λ a rest. then_parse (parse_items parse n rest) λ items rest'. some (a ∷ items, rest')

parse_list {ℓ} : {A : Type ℓ} → Parse A → Parse (List A)
parse_list parse input = then_parse (parse_number input) λ n rest. parse_items parse n rest

print_items {ℓ} : {A : Type ℓ} → (A → List ℕ) → List A → List ℕ
print_items print [] = []
print_items print (a ∷ items) = print a ++ print_items print items

print_list {ℓ} : {A : Type ℓ} → (A → List ℕ) → List A → List ℕ
print_list print items = length items ∷ print_items print items

parse_items-print_items {ℓ} :
    {A : Type ℓ} (print : A → List ℕ) (parse : Parse A)
    → ((a : A) (rest : List ℕ) → parse (print a ++ rest) ≡ some (a, rest))
    → (items : List A) (rest : List ℕ)
    → parse_items parse (length items) (print_items print items ++ rest) ≡ some (items, rest)
unfolding parse_items print_items
parse_items-print_items print parse inverse [] rest = refl
parse_items-print_items print parse inverse (a ∷ items) rest =
    rw
      (
        append_assoc (print a) (print_items print items) rest,
        inverse a (print_items print items ++ rest),
        parse_items-print_items print parse inverse items rest,
      )
      refl

parse_list-print_list {ℓ} :
    {A : Type ℓ} (print : A → List ℕ) (parse : Parse A)
    → ((a : A) (rest : List ℕ) → parse (print a ++ rest) ≡ some (a, rest))
    → (items : List A) (rest : List ℕ)
    → parse_list parse (print_list print items ++ rest) ≡ some (items, rest)
unfolding parse_list print_list parse_number
parse_list-print_list print parse inverse items rest =
    parse_items-print_items print parse inverse items rest

print_number : ℕ → List ℕ
print_number n = n ∷ []

number_inverse : (n : ℕ) (rest : List ℕ) → parse_number (print_number n ++ rest) ≡ some (n, rest)
unfolding parse_number print_number
number_inverse n rest = refl

print_destination : Destination → List ℕ
print_destination d =
    print_list print_number d.id
    ++ (print_list print_number d.env_var ++ print_list print_number d.command)

parse_destination : Parse Destination
parse_destination input = then_parse (parse_list parse_number input) λ id rest.
    then_parse (parse_list parse_number rest) λ env_var rest'.
      then_parse (parse_list parse_number rest')
        λ command rest''. some (record { id = id; env_var = env_var; command = command }, rest'')

text_inverse :
    (s rest : List ℕ) → parse_list parse_number (print_list print_number s ++ rest) ≡ some (s, rest)
text_inverse s rest = parse_list-print_list print_number parse_number number_inverse s rest

destination_inverse :
    (d : Destination) (rest : List ℕ)
    → parse_destination (print_destination d ++ rest) ≡ some (d, rest)
unfolding parse_destination print_destination
destination_inverse d rest =
    rw
      (
        append_assoc (print_list print_number d.id) _ rest,
        text_inverse d.id _,
        append_assoc (print_list print_number d.env_var) _ rest,
        text_inverse d.env_var _,
        text_inverse d.command rest,
      )
      refl

print_handle : AgentHandle → List ℕ
print_handle h =
    print_list print_number h.id
    ++ (print_list print_number h.entry_title
        ++ (print_list print_number h.field
            ++ (print_list print_destination h.destinations
                ++ (h.created_at ∷ h.expires_at ∷ h.uses_remaining ∷ []))))

parse_handle : Parse AgentHandle
parse_handle input = then_parse (parse_list parse_number input) λ id r1.
    then_parse (parse_list parse_number r1) λ title r2.
      then_parse (parse_list parse_number r2) λ field r3.
        then_parse (parse_list parse_destination r3) λ dests r4.
          then_parse (parse_number r4) λ created r5. then_parse (parse_number r5) λ expires r6.
            then_parse (parse_number r6) λ uses r7. some (
              record {
                id = id;
                entry_title = title;
                field = field;
                destinations = dests;
                created_at = created;
                expires_at = expires;
                uses_remaining = uses;
              },
              r7,
            )

handle_inverse :
    (h : AgentHandle) (rest : List ℕ) → parse_handle (print_handle h ++ rest) ≡ some (h, rest)
unfolding parse_handle print_handle parse_number
handle_inverse h rest =
    rw
      (
        append_assoc (print_list print_number h.id) _ rest,
        text_inverse h.id _,
        append_assoc (print_list print_number h.entry_title) _ rest,
        text_inverse h.entry_title _,
        append_assoc (print_list print_number h.field) _ rest,
        text_inverse h.field _,
        append_assoc (print_list print_destination h.destinations) _ rest,
        parse_list-print_list print_destination parse_destination destination_inverse h.destinations
            _,
      )
      refl

-- A mark that is no white space stands in front.
pub print_store : HandleStore → List ℕ
print_store s = 0x7B ∷ print_list print_handle s.handles

parsed_store : Option (List AgentHandle × List ℕ) → Option HandleStore
parsed_store none = none
parsed_store (some (hs, rest)) = some (record { handles = hs })

pub parse_store : List ℕ → Option HandleStore
parse_store [] = none
parse_store (c ∷ rest) =
    if is_blank (c ∷ rest) then none else parsed_store (parse_list parse_handle rest)

pub parse_store-print_store : (s : HandleStore) → parse_store (print_store s) ≡ some s
unfolding parse_store print_store parsed_store is_blank is_whitespace
parse_store-print_store s =
    let inverse : parse_list parse_handle (print_list print_handle s.handles)
        ≡ some (s.handles, []) =
      rw (← append-nil (print_list print_handle s.handles))
        (parse_list-print_list print_handle parse_handle handle_inverse s.handles []) in
    rw inverse refl

pub parse_store-is_blank : (text : List ℕ) → is_blank text ≡ true → parse_store text ≡ none
unfolding parse_store
parse_store-is_blank [] blank = refl
parse_store-is_blank (c ∷ rest) blank = rw blank refl

pub printed_inj : {s t : List ℕ} → some s ≡ some t → s ≡ t
printed_inj e = cc

unfoldable pub toy_json : Json
toy_json = record {
  to_string_pretty = λ s. some (print_store s);
  from_str = parse_store;
  from_str-to_string_pretty = λ store text e. rw (← printed_inj e) (parse_store-print_store store);
  from_str-is_blank = parse_store-is_blank;
}
