-- ===== src/Commands/Selectors.antt =====
-- cmd/cofidectl/cmd/attestationpolicy/attestationpolicy.go: `parseSelectors`, and what it shares with
-- `formatSelectors` of internal/pkg/attestationpolicy/attestationpolicy.go.
use Prim.Native.Char.{Char}
use Prim.Native.String.{◌++◌}
use text.Mathlib.TextLemmas.{append_assoc, nil-append, cons-append, cons≢nil}
use cofidectl.Common.{
  ◌≡◌, refl, sym, ap, ◌∙◌, String, ◌==◌, false, Option, none, some, List, [], ◌∷◌, if◌then◌else◌,
  Bool-cases, inl, inr, eq_of_test, test_of_ne,
}
use cofidectl.Common.Errors.{Result, ok, err, ◌>>=◌, selector_malformed, bind-eq-ok}
use cofidectl.Config.Messages.{Selector}
use cofidectl.Helm.Entries.{format_selectors, is_blank, formatted}

abbrev pub extended : String → Option (String × String) → Option (String × String)
extended first none = none
extended first (some (a, b)) = some (first ++ a, b)

abbrev letter : String → String → String
letter first rest = first ++ rest

-- What stands before and after the first colon.
unfoldable pub split_once : String → Option (String × String)
split_once String.[] = none
split_once (String.◌∷◌ c s) =
    let rest = split_once s in
    if String.◌∷◌ c "" == ":" then some ("", s) else extended (String.◌∷◌ c "") rest

-- The selector of three parts, none of which may be empty.
abbrev pub selector_of : String → String → String → String → Result Selector
selector_of s type_name key value =
    if type_name == ""
    then err (selector_malformed s)
    else if key == ""
    then err (selector_malformed s)
    else if value == ""
    then err (selector_malformed s)
    else ok (record { type_name = type_name; value = key ++ ":" ++ value })

abbrev second_split : String → String → Option (String × String) → Result Selector
second_split s type_name none = err (selector_malformed s)
second_split s type_name (some (key, value)) = selector_of s type_name key value

abbrev first_split : String → Option (String × String) → Result Selector
first_split s none = err (selector_malformed s)
first_split s (some (type_name, rest)) = second_split s type_name (split_once rest)

-- One round of the loop: `strings.SplitN(s, ":", 3)` and the checks of the parts.
unfoldable pub parse_selector : String → Result Selector
parse_selector s = first_split s (split_once s)

-- `parseSelectors`
unfoldable pub parse_selectors : List String → Result (List Selector)
parse_selectors [] = ok []
parse_selectors (s ∷ ss) =
    parse_selector s >>= λ selector. parse_selectors ss >>= λ selectors. ok (selector ∷ selectors)

extended-some :
    (first : String) (o : Option (String × String)) (a b : String)
    → extended first o ≡ some (a, b)
    → (a' : String) × (o ≡ some (a', b)) × (first ++ a' ≡ a)
extended-some first none a b h = cc
extended-some first (some (x, y)) a b h =
    let same : first ++ x ≡ a = cc in let rest : y ≡ b = cc in (x, rw rest refl, same)

at_colon :
    (first s a b : String)
    → first ≡ ":"
    → ◌≡◌ {A = Option (String × String)} (some ("", s)) (some (a, b))
    → first ++ s ≡ a ++ ":" ++ b
at_colon first s a b e h =
    let nothing : "" ≡ a = cc in let rest : s ≡ b = cc in rw (← nothing, ← rest, e, nil-append) refl

first_letter : (c : Char) (s : String) → String.◌∷◌ c s ≡ String.◌∷◌ c "" ++ s
first_letter c s = sym (cons-append c "" s ∙ ap (λ x. String.◌∷◌ c x) (nil-append s))

-- Splitting and joining with a colon gives the text back.
split_once-append : (s a b : String) → split_once s ≡ some (a, b) → s ≡ a ++ ":" ++ b
unfolding split_once
split_once-append String.[] a b h = cc
split_once-append (String.◌∷◌ c s) a b h = elim (Bool-cases (String.◌∷◌ c "" == ":")) [
  | inl t ↦ first_letter c s ∙ at_colon (String.◌∷◌ c "") s a b (eq_of_test _ ":" t) (rw t at h)
  | inr t ↦
      let (a', e, same) = extended-some (String.◌∷◌ c "") (split_once s) a b (rw t at h) in
      first_letter c s
      ∙ ap (λ x. String.◌∷◌ c "" ++ x) (split_once-append s a' b e)
      ∙ sym (append_assoc (String.◌∷◌ c "") a' (":" ++ b))
      ∙ ap (λ x. x ++ ":" ++ b) same
]

nonempty-append : (k x : String) → (k == "") ≡ false → (k ++ x == "") ≡ false
nonempty-append String.[] x h = cc
nonempty-append (String.◌∷◌ c k) x h = test_of_ne _ "" (λ e. cons≢nil (sym (cons-append c k x) ∙ e))

selector_of-ok :
    (s t k v : String) (selector : Selector)
    → selector_of s t k v ≡ ok selector
    → ((t == "") ≡ false)
      × ((k == "") ≡ false)
      × (record { type_name = t; value = k ++ ":" ++ v } ≡ selector)
selector_of-ok s t k v selector h = elim (Bool-cases (t == "")) [
  | inl e ↦ let k = rw e at h in cc
  | inr e ↦ elim (Bool-cases (k == "")) [
    | inl f ↦ let k = rw (e, f) at h in cc
    | inr f ↦ elim (Bool-cases (v == "")) [
      | inl g ↦ let k = rw (e, f, g) at h in cc
      | inr g ↦ let k = rw (e, f, g) at h in (e, f, cc)
    ]
  ]
]

-- A selector that was parsed is written as it was read, and has no empty part.
parse_selector-formatted :
    (s : String) (selector : Selector)
    → parse_selector s ≡ ok selector
    → (is_blank selector ≡ false) × (formatted selector ≡ s)
unfolding parse_selector
parse_selector-formatted s selector h = go (split_once s) refl h
  where
    second :
        (type_name rest : String) (o : Option (String × String))
        → split_once rest ≡ o
        → second_split s type_name o ≡ ok selector
        → (is_blank selector ≡ false) × (formatted selector ≡ type_name ++ ":" ++ rest)
    second type_name rest none e h = cc
    second type_name rest (some (key, value)) e h =
        let (t, k, same) = selector_of-ok s type_name key value selector h in
        rw (← same) (
          rw (t, nonempty-append key (":" ++ value) k) refl,
          ap (λ x. type_name ++ ":" ++ x) (sym (split_once-append rest key value e)),
        )

    go :
        (o : Option (String × String))
        → split_once s ≡ o
        → first_split s o ≡ ok selector
        → (is_blank selector ≡ false) × (formatted selector ≡ s)
    go none e h = cc
    go (some (type_name, rest)) e h =
        let (full, same) = second type_name rest (split_once rest) refl h in
        (full, same ∙ sym (split_once-append s type_name rest e))

-- Each list of selectors that the command parses is one that the Helm values can hold, and they are
-- written there as they were given.
pub format_selectors-parse_selectors :
    (ss : List String) (selectors : List Selector)
    → parse_selectors ss ≡ ok selectors
    → format_selectors selectors ≡ ok ss
unfolding parse_selectors format_selectors
format_selectors-parse_selectors [] selectors h =
    let none_left : [] ≡ selectors = cc in rw (← none_left) refl
format_selectors-parse_selectors (s ∷ ss) selectors h =
    let (selector, e, k) = bind-eq-ok (parse_selector s) _ h in
    let (more, f, l) = bind-eq-ok (parse_selectors ss) _ k in
    let all : selector ∷ more ≡ selectors = cc in
    let (full, same) = parse_selector-formatted s selector e in
    rw (← all, full, same, format_selectors-parse_selectors ss more f) refl
