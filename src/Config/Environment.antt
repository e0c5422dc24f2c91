-- ===== src/Config/Environment.antt =====
-- src/py-inference/src/config.py: `_interpolate_env_vars`, with `re.sub` written out. The parameters are
-- the class `\w` of the package re, which holds no closing brace, and `os.environ`.
use openmodel.Base.{
  ℕ, zero, suc, Bool, ◌==◌, ◌&&◌, [], ◌∷◌, ◌++◌, Option, none, some, length, if◌then◌else◌,
}
use openmodel.Base.Text.{Text}
use openmodel.Config.Devices.{get}

module _ (is_word : ℕ → Bool) (environ : Text → Option Text) where
  abbrev onto : ℕ → Option Text → Option Text
  onto c none = none
  onto c (some t) = some (c ∷ t)

  -- Word characters up to a closing brace.
  unfoldable pub word_to_brace : Text → Option Text
  word_to_brace [] = none
  word_to_brace (c ∷ s) =
      let rest = word_to_brace s in
      if is_word c then onto c rest else if c == b'}' then some [] else none

  abbrev nonempty : Option Text → Option Text
  nonempty (some (c ∷ t)) = some (c ∷ t)
  nonempty _ = none

  -- The name in a `${name}` that begins here.
  unfoldable pub match_here : Text → Option Text
  unfolding word_to_brace
  match_here (c ∷ d ∷ s) = if c == b'$' && d == b'{' then nonempty (word_to_brace s) else none
  match_here _ = none

  -- The text with its variables replaced, from behind the next `skip` characters.
  unfoldable pub sub_from : ℕ → Text → Text
  unfolding match_here
  sub_from skip [] = []
  sub_from (suc skip) (c ∷ s) = sub_from skip s
  sub_from zero (c ∷ s) = elim (match_here (c ∷ s)) [
    | some name ↦ get (environ name) [] ++ sub_from (suc (suc (length name))) s
    | none ↦ c ∷ sub_from zero s
  ]

  unfoldable pub interpolate_env_vars : Text → Text
  unfolding sub_from
  interpolate_env_vars s = sub_from zero s
