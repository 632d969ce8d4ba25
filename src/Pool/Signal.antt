-- ===== src/Pool/Signal.antt =====
-- `provider_rate_limit_signal` of scripts/worker_pool.py, its patterns matched on ASCII text.
use ao_operator.Base.{
  ℕ, Bool, true, false, not, ◌&&◌, ◌||◌, Option, none, some, [], ◌∷◌, ◌==◌, leb, if◌then◌else◌, map,
  ◌≡◌, refl,
}
use ao_operator.Text.{Text, codes, contains, lower, remove_prefix}

-- `\w` on ASCII.
unfoldable pub is_word_char : ℕ → Bool
is_word_char c =
    leb b'a' c && leb c b'z' || leb b'A' c && leb c b'Z' || leb b'0' c && leb c b'9' || c == b'_'

-- Whether a text goes on with no word character: a boundary behind a word.
unfoldable pub ends_word : Option Text → Bool
unfolding is_word_char
ends_word none = false
ends_word (some []) = true
ends_word (some (c ∷ s)) = not (is_word_char c)

-- `\b429\b`; the flag says that a word character stands before.
unfoldable pub has_429 : Bool → Text → Bool
unfolding ends_word remove_prefix
has_429 prev [] = false
has_429 prev (c ∷ s) =
    let rest = has_429 (is_word_char c) s in
    not prev && ends_word (remove_prefix (codes "429") (c ∷ s)) || rest

-- `rate[-_ ]?limit(?:ed| exceeded)?`, in lower case
unfoldable pub has_rate_limit : Text → Bool
unfolding contains
has_rate_limit s =
    contains (codes "ratelimit") s
    || contains (codes "rate-limit") s
    || contains (codes "rate_limit") s
    || contains (codes "rate limit") s

unfoldable pub provider_rate_limit_signal : Text → Option Text
unfolding has_429 has_rate_limit contains lower
provider_rate_limit_signal output =
    let text = map lower output in
    if has_429 false text
    then some (codes "429")
    else if contains (codes "too many requests") text
    then some (codes "too_many_requests")
    else if has_rate_limit text
    then some (codes "rate_limit")
    else if contains (codes "quota exceeded") text
    then some (codes "quota_exceeded")
    else none

signal_429 : provider_rate_limit_signal (codes "HTTP 429: slow down") ≡ some (codes "429")
unfolding provider_rate_limit_signal
signal_429 = refl

signal_none : provider_rate_limit_signal (codes "line 14290 ok") ≡ none
unfolding provider_rate_limit_signal
signal_none = refl
