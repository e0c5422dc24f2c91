-- ===== src/Engine/Sampling.antt =====
-- src/py-inference/src/inference/engine.py: the sampling parameters of a request, and
-- `_is_engine_dead_error`. Temperature and top_p are numbers of hundredths.
use openmodel.Base.{ℕ, Bool, List, [], ◌∷◌, Option, none, some}
use openmodel.Base.Text.{Text, codes, contains, lower}

-- `kwargs.get("stop")`: none, a text, or a list of them.
pub data StopArg : Type 0 where
  no_stop : StopArg
  one_stop : Text → StopArg
  many_stops : List Text → StopArg

-- What `generate` and `generate_stream` read of their keyword arguments; none where one is missing.
pub record RequestKwargs : Type 0 where
  pub max_tokens : Option ℕ
  pub temperature : Option ℕ
  pub top_p : Option ℕ
  pub stop : StopArg

-- `sp_kwargs`, which vLLM's SamplingParams is built from.
pub record SamplingKwargs : Type 0 where
  pub max_tokens : ℕ
  pub temperature : ℕ
  pub top_p : ℕ
  pub stop : Option (List Text)

abbrev pub get_or_default : Option ℕ → ℕ → ℕ
get_or_default none n = n
get_or_default (some m) n = m

abbrev pub stop_list : StopArg → Option (List Text)
stop_list no_stop = none
stop_list (one_stop t) = some (t ∷ [])
stop_list (many_stops ts) = some ts

unfoldable pub sampling_kwargs : RequestKwargs → SamplingKwargs
sampling_kwargs k = record {
  max_tokens = get_or_default k.max_tokens 256;
  temperature = get_or_default k.temperature 70;
  top_p = get_or_default k.top_p 95;
  stop = stop_list k.stop;
}

-- On the name of the exception's class.
unfoldable pub is_engine_dead_error : Text → Bool
is_engine_dead_error name = contains (codes "enginedead") (lower name)
