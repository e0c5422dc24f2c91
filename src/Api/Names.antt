-- ===== src/Api/Names.antt =====
-- src/py-inference/src/inference/api_server.py: `_model_matches`, whether the model that is loaded is
-- the one that a request names.
use openmodel.Base.{Bool, true, false, [], ◌∷◌, if◌then◌else◌}
use openmodel.Base.Text.{Text, codes, same, is_empty, replace, rstrip, split, last_part}

-- `s.replace("\\", "/").rstrip("/").split("/")[-1]`.
unfoldable pub final_component : Text → Text
final_component s = last_part (split b'/' (rstrip b'/' (replace b'\\' (b'/' ∷ []) s)))

-- `requested.replace("/", "--")`.
unfoldable pub flat_name : Text → Text
flat_name s = replace b'/' (codes "--") s

unfoldable pub model_matches : Text → Text → Bool
unfolding final_component flat_name
model_matches current requested =
    if is_empty current
    then false
    else if same current requested
    then true
    else same (final_component current) (final_component (flat_name requested))
