-- ===== src/Models/Manager.antt =====
-- src/py-inference/src/model/manager.py: `ensure_model`, with the FOC client's answers as arguments.
use openmodel.Base.{Bool, Option, some, List, if◌then◌else◌}
use openmodel.Base.Text.{Text}
use openmodel.Models.Cache.{is_model_complete, exists, ModelFiles, Stuck, removed}
use openmodel.Models.Download.{BridgeAnswer, Extraction, Removals, Run, download_weights}

-- The path that is returned: the cache, the cache after a download, the id itself; or an exception.
pub data Ensured : Type 0 where
  from_cache downloaded as_given ensure_raised : Ensured

-- What the FOC client answers, for a model whose tarball holds `archive`. `resolved` false:
-- `resolve_model` raises ValueError. And what cannot be removed: during the download, and by
-- `ensure_model` itself before it.
pub record FocAnswers : Type 0 where
  pub available : Bool
  pub resolved : Bool
  pub archive : List Text
  pub bridge : BridgeAnswer
  pub extraction : Extraction
  pub removals : Removals
  pub stuck : Stuck

-- The files and `_loaded_model` after the call.
pub record EnsureRun : Type 0 where
  pub result : Ensured
  pub files : ModelFiles
  pub loaded_model : Option Text

unfoldable pub downloaded_run : Text → Option Text → Run → EnsureRun
downloaded_run id before r =
    if r.returned
    then record { result = downloaded; files = r.files; loaded_model = some id }
    else record { result = ensure_raised; files = r.files; loaded_model = before }

-- With no complete model in the cache.
unfoldable pub from_foc : Text → FocAnswers → Option Text → ModelFiles → EnsureRun
unfolding downloaded_run
from_foc id a before m =
    if a.available
    then if a.resolved
      then downloaded_run id before (download_weights a.archive a.removals a.bridge a.extraction m)
      else record { result = ensure_raised; files = m; loaded_model = before }
    else record { result = as_given; files = m; loaded_model = some id }

-- `shutil.rmtree(cached_path)` if something incomplete is there.
abbrev pub cleared : Stuck → ModelFiles → ModelFiles
cleared k m = record m { cache = removed k m.cache }

unfoldable pub ensure_model : Text → FocAnswers → Option Text → ModelFiles → EnsureRun
unfolding from_foc
ensure_model id a before m =
    if is_model_complete m.cache
    then record { result = from_cache; files = m; loaded_model = some id }
    else from_foc id a before (if exists m.cache then cleared a.stuck m else m)
