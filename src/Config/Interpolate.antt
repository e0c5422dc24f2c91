-- ===== src/Config/Interpolate.antt =====
-- src/py-inference/src/config.py: what `_interpolate_env_vars` replaces.
use openmodel.Base.{
  ◌≡◌, ◌≢◌, refl, sym, ap, ◌∙◌, ℕ, zero, suc, Bool, true, false, [], ◌∷◌, ◌++◌, Option, none, some,
  arith, all, length,
}
use mathlib.Core.List.{append-nil}
use openmodel.Base.Text.{Text, codes, Lacks}
use openmodel.Config.Devices.{get}
use openmodel.Config.Environment.{word_to_brace, match_here, sub_from, interpolate_env_vars}

module _ (is_word : ℕ → Bool) (environ : Text → Option Text) where
  word_to_brace_lem :
      (name rest : Text)
      → is_word b'}' ≡ false
      → all is_word name ≡ true
      → word_to_brace is_word environ (name ++ b'}' ∷ rest) ≡ some name
  unfolding word_to_brace
  word_to_brace_lem [] rest b h = rw b refl
  word_to_brace_lem (c ∷ name) rest b h =
      ground (arith, word_to_brace_lem name rest b (ground arith))

  match_elsewhere : (c : ℕ) (s : Text) → c ≢ b'$' → match_here is_word environ (c ∷ s) ≡ none
  unfolding match_here
  match_elsewhere c [] n = refl
  match_elsewhere c (d ∷ s) n = ground arith

  sub_from-plain :
      (a s : Text)
      → Lacks b'$' a
      → sub_from is_word environ zero (a ++ s) ≡ a ++ sub_from is_word environ zero s
  unfolding sub_from
  sub_from-plain [] s h = refl
  sub_from-plain (c ∷ a) s (n, h) =
      rw (match_elsewhere c (a ++ s) n, sub_from) (ap (λ t. c ∷ t) (sub_from-plain a s h))

  sub_from-skip :
      (name s : Text)
      → sub_from is_word environ (suc (length name)) (name ++ b'}' ∷ s)
        ≡ sub_from is_word environ zero s
  unfolding sub_from
  sub_from-skip [] s = refl
  sub_from-skip (c ∷ name) s = sub_from-skip name s

  match_variable :
      (c : ℕ) (name rest : Text)
      → is_word b'}' ≡ false
      → all is_word (c ∷ name) ≡ true
      → match_here is_word environ (b'$' ∷ b'{' ∷ (c ∷ name) ++ b'}' ∷ rest) ≡ some (c ∷ name)
  unfolding match_here
  match_variable c name rest b h = rw (word_to_brace_lem (c ∷ name) rest b h, match_here) refl

  sub_from-variable :
      (c : ℕ) (name rest : Text)
      → is_word b'}' ≡ false
      → all is_word (c ∷ name) ≡ true
      → sub_from is_word environ zero (b'$' ∷ b'{' ∷ (c ∷ name) ++ b'}' ∷ rest)
        ≡ get (environ (c ∷ name)) [] ++ sub_from is_word environ zero rest
  unfolding sub_from
  sub_from-variable c name rest b h =
      rw (match_variable c name rest b h, sub_from)
        (ap (λ t. get (environ (c ∷ name)) [] ++ t) (sub_from-skip (c ∷ name) rest))

  -- The configuration's text before a `${NAME}` stays as it is, where it holds no dollar; the reference
  -- is replaced by the variable's value, or by nothing if it is not set; and the replacement goes on
  -- behind it, without reading the value again. A text without a dollar stays as it is.
  interpolation_replaces :
      (a : Text) (c : ℕ) (name rest : Text)
      → is_word b'}' ≡ false
      → Lacks b'$' a
      → all is_word (c ∷ name) ≡ true
      → (interpolate_env_vars is_word environ (a ++ (codes "${" ++ ((c ∷ name) ++ b'}' ∷ rest)))
          ≡ a ++ (get (environ (c ∷ name)) [] ++ interpolate_env_vars is_word environ rest))
        × (interpolate_env_vars is_word environ a ≡ a)
  unfolding interpolate_env_vars
  interpolation_replaces a c name rest b h w = (
    sub_from-plain a _ h ∙ ap (λ t. a ++ t) (sub_from-variable c name rest b w),
    ap (sub_from is_word environ zero) (sym (append-nil a))
        ∙ sub_from-plain a [] h
        ∙ (unfold sub_from in append-nil a),
  )
