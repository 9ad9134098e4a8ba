-- ===== src/Register/Template/Kept.antt =====
-- What the substitution keeps of a text.
use Prim.Native.Char.{Char}
use Prim.Native.String.{◌++◌ as ◌<>◌}
use Prim.Native.String.append
use text.Mathlib.TextLemmas.{append-nil, append_assoc}
use crypto_analytics_platfor.Base.{
  ◌≡◌, refl, sym, ap, ◌∙◌, String, Bool, true, false, ◌&&◌, not, List, [], ◌∷◌, ◌++◌, none,
  Bool-cases, inl, inr,
}
use crypto_analytics_platfor.Base.Texts.{str_eq, str_eq_iff}
use crypto_analytics_platfor.Register.Template.{
  Piece, Partial, outside, dollar, name, one, pending, restart, step, pieces, replacement, rendered,
  is_name_char,
}

-- The text that pieces were cut from.
abbrev pub original : List Piece → String
original = rendered (λ key. none)

original-append : (xs ys : List Piece) → original (xs ++ ys) ≡ original xs <> original ys
unfolding rendered
original-append [] ys = sym (append.nil (original ys))
original-append (x ∷ xs) ys =
    ap (λ s. replacement (λ key. none) x <> s) (original-append xs ys)
    ∙ sym (append_assoc (replacement (λ key. none) x) (original xs) (original ys))

-- Once a character has been read: what has been cut, and what is pending.
abbrev so_far : List Piece × Partial → String
so_far out = original out.0 <> pending out.1

-- The laws of appending, as rewriting uses them.
ruleset appending = (append-nil, append.nil, append_assoc)

restart-keeps : (before : String) (c : Char) → so_far (restart before c) ≡ before <> one c
unfolding restart rendered replacement
restart-keeps before c = elim (Bool-cases (str_eq (one c) "$")) [
  | inl e ↦ rw (e, (str_eq_iff (one c) "$").0 e) (simp appending)
  | inr e ↦ rw e (simp appending)
]

first_true : (a b : Bool) → (a && b) ≡ true → a ≡ true
first_true true b h = refl
first_true false b h = h

step-keeps : (state : Partial) (c : Char) → so_far (step state c) ≡ pending state <> one c
unfolding step rendered replacement
step-keeps outside c = restart-keeps "" c
step-keeps dollar c = elim (Bool-cases (str_eq (one c) "{")) [
  | inl e ↦ rw (e, (str_eq_iff (one c) "{").0 e) (simp appending)
  | inr e ↦ rw e (restart-keeps "$" c)
]
step-keeps (name cs) c = elim (Bool-cases (is_name_char c)) [
  | inl e ↦ rw e (simp appending)
  | inr e ↦ elim (Bool-cases (str_eq (one c) "}" && not (str_eq cs ""))) [
    | inl b ↦ rw (e, b, (str_eq_iff (one c) "}").0 (first_true _ _ b)) (simp appending)
    | inr b ↦ rw (e, b) (restart-keeps ("${" <> cs) c)
  ]
]

pieces-keep : (state : Partial) (s : String) → original (pieces state s) ≡ pending state <> s
unfolding pieces rendered replacement
pieces-keep state String.[] = refl
pieces-keep state (String.◌∷◌ c s) =
    let (out, next) = step state c in
    original-append out (pieces next s)
    ∙ ap (λ u. original out <> u) (pieces-keep next s)
    ∙ sym (append_assoc (original out) (pending next) s)
    ∙ ap (λ u. u <> s) (step-keeps state c)
    ∙ append_assoc (pending state) (one c) s
    ∙ ap (λ u. pending state <> u)
        (append.cons c String.[] s ∙ ap (λ u. String.◌∷◌ c u) (append.nil s))

-- The expression loses no character: where no variable is set, a text that is cut into its literals and
-- the names of its variables, and put together again, is the text as it was.
pub rendered-pieces : (s : String) → rendered (λ key. none) (pieces outside s) ≡ s
rendered-pieces s = pieces-keep outside s ∙ append.nil s
