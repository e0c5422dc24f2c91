-- ===== src/Mock/Answers.antt =====
-- src/py-inference/src/inference/engine.py: what MockEngine answers. A text is the list of its code points;
-- of the characters that `split()` breaks at, those of ASCII are counted.
use openmodel.Base.{
  ◌≡◌, refl, ℕ, zero, suc, ◌+◌, ◌≤◌, min, Bool, ◌&&◌, ◌||◌, List, [], ◌∷◌, ◌++◌, Option, none, some,
  map, length, leb, if◌then◌else◌, ◌==◌, arith, bit, true, false,
}
use openmodel.Base.Text.{Text, codes, take}
use openmodel.Receipt.Decimal.{decimal}
use openmodel.Engine.Outputs.{GenerateResult, StreamChunk}

abbrev is_space : ℕ → Bool
is_space c = c == b' ' || ((leb 9 c && leb c 13) || (leb 28 c && leb c 31))

-- `len(prompt.split())`: a word ends before a space or at the end.
word_count_from : Bool → Text → ℕ
word_count_from inside [] = bit inside
word_count_from inside (c ∷ s) =
    if is_space c then bit inside + word_count_from false s else word_count_from true s

unfoldable pub word_count : Text → ℕ
unfolding word_count_from
word_count s = word_count_from false s

-- `t * n`.
abbrev pub repeat : Text → ℕ → Text
repeat t zero = []
repeat t (suc n) = t ++ repeat t n

-- `generate`; `max_tokens` is 50 if the request has none.
unfoldable pub mock_result : ℕ → Text → Option ℕ → GenerateResult
unfolding word_count
mock_result gpu_id prompt max_tokens =
    let tokens = min (elim max_tokens [ none ↦ 50 | some n ↦ n ]) 20 in
    record {
      text =
          codes "[GPU-"
          ++ (decimal gpu_id
              ++ (codes " Mock response to: "
                  ++ (take 50 prompt ++ (codes "...] " ++ repeat (codes "token ") tokens))));
      prompt_tokens = word_count prompt;
      completion_tokens = tokens;
      finish_reason = codes "stop";
      cached_tokens = 0;
    }

abbrev pub mock_words : List Text
mock_words = codes "Hello " ∷ codes "from " ∷ codes "mock " ∷ codes "engine. " ∷ []

abbrev word_chunk : Text → StreamChunk
word_chunk w = record {
  text_delta = w;
  finish_reason = none;
  prompt_tokens = 0;
  completion_tokens = 0;
  cached_tokens = 0;
}

-- `generate_stream`.
unfoldable pub mock_chunks : Text → List StreamChunk
unfolding word_count
mock_chunks prompt =
    map word_chunk mock_words
    ++ record {
      text_delta = [];
      finish_reason = some (codes "stop");
      prompt_tokens = word_count prompt;
      completion_tokens = length mock_words;
      cached_tokens = 0;
    }
      ∷ []

-- A text has at most as many words as characters.
word_count_le : (inside : Bool) (s : Text) → word_count_from inside s ≤ bit inside + length s
unfolding word_count_from
word_count_le inside [] = ground arith
word_count_le inside (c ∷ s) = ground (arith, word_count_le false s, word_count_le true s)

prompt_words : word_count (codes " What is  up?") ≡ 3
unfolding word_count
prompt_words = refl
