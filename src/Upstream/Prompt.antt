-- ===== src/Upstream/Prompt.antt =====
-- internal/upstream/cascade.go, `estimatePromptTokens`, and internal/tokenizer/tokenizer.go, `CountTokens`.
use Prim.Native.String.{len, ◌++◌}
use package.text.Mathlib.Text.{◌==◌ as str_eq}
use package.text.Mathlib.TextEquality.{eq_iff}
use package.text.Mathlib.TextPositions.{len-append}
use nexus_proxy.Shared.{
  sym, ap, ◌∙◌, ℕ, ◌+◌, ◌/◌, ◌≡◌, refl, String, true, List, [], ◌∷◌, Option, none, some, ltb,
  if◌then◌else◌, arith, inl, inr, Bool-cases,
}

-- `content` of a message: a text, a list of parts (those without a text are `none`), or neither.
pub data Content : Type 0 where
  text : String → Content
  parts : List (Option String) → Content
  other : Content

-- The encoder `enc.Encode`, or `none` where it cannot be loaded: the number of its tokens.
abbrev pub Encoder : Type 0
Encoder = Option (String → ℕ)

abbrev pub max_accurate_encode_len : ℕ
max_accurate_encode_len = 8192

unfoldable pub count_tokens : Encoder → String → ℕ
count_tokens encoder s =
    if str_eq s ""
    then 0
    else (if ltb max_accurate_encode_len (len s)
        then len s / 4
        else (elim encoder [ none ↦ len s / 4 | some encode ↦ encode s ]))

-- The first pass: bytes of one content, of one message with its separator, of all messages. A message
-- that is not a map is `none`, and skipped.
unfoldable pub part_bytes : List (Option String) → ℕ
part_bytes [] = 0
part_bytes (none ∷ ps) = part_bytes ps
part_bytes (some t ∷ ps) = len t + part_bytes ps

unfoldable pub content_bytes : Content → ℕ
unfolding part_bytes
content_bytes (text t) = len t
content_bytes (parts ps) = part_bytes ps
content_bytes other = 0

unfoldable pub total_bytes : List (Option Content) → ℕ
unfolding content_bytes
total_bytes [] = 0
total_bytes (none ∷ ms) = total_bytes ms
total_bytes (some c ∷ ms) = content_bytes c + 1 + total_bytes ms

-- The second pass: the text that is built.
unfoldable pub part_text : List (Option String) → String
part_text [] = ""
part_text (none ∷ ps) = part_text ps
part_text (some t ∷ ps) = t ++ part_text ps

unfoldable pub content_text : Content → String
unfolding part_text
content_text (text t) = t
content_text (parts ps) = part_text ps
content_text other = ""

unfoldable pub prompt_text : List (Option Content) → String
unfolding content_text
prompt_text [] = ""
prompt_text (none ∷ ms) = prompt_text ms
prompt_text (some c ∷ ms) = content_text c ++ (" " ++ prompt_text ms)

-- `messages` is `none` where the payload has no list of that name; `printed` is `fmt.Sprint(payload)`.
unfoldable pub estimate_prompt_tokens : Encoder → String → Option (List (Option Content)) → ℕ
unfolding total_bytes prompt_text count_tokens
estimate_prompt_tokens encoder printed none = len printed / 4
estimate_prompt_tokens encoder printed (some []) = len printed / 4
estimate_prompt_tokens encoder printed (some (m ∷ ms)) =
    if ltb max_accurate_encode_len (total_bytes (m ∷ ms))
    then total_bytes (m ∷ ms) / 4
    else count_tokens encoder (prompt_text (m ∷ ms))

part_bytes-len : (ps : List (Option String)) → len (part_text ps) ≡ part_bytes ps
unfolding part_bytes part_text
part_bytes-len [] = refl
part_bytes-len (none ∷ ps) = part_bytes-len ps
part_bytes-len (some t ∷ ps) = omega (arith, len-append t (part_text ps), part_bytes-len ps)

content_bytes-len : (c : Content) → len (content_text c) ≡ content_bytes c
unfolding content_bytes content_text
content_bytes-len (text t) = refl
content_bytes-len (parts ps) = part_bytes-len ps
content_bytes-len other = refl

-- The first pass counts the bytes of the text that the second pass would build.
pub total_bytes-len : (ms : List (Option Content)) → len (prompt_text ms) ≡ total_bytes ms
unfolding total_bytes prompt_text
total_bytes-len [] = refl
total_bytes-len (none ∷ ms) = total_bytes-len ms
total_bytes-len (some c ∷ ms) = omega (
  arith,
  len-append (content_text c) (" " ++ prompt_text ms),
  len-append " " (prompt_text ms),
  content_bytes-len c,
  total_bytes-len ms,
)

long_text :
    (encoder : Encoder) (s : String)
    → ltb max_accurate_encode_len (len s) ≡ true
    → count_tokens encoder s ≡ len s / 4
unfolding count_tokens
long_text encoder s h = elim (Bool-cases (str_eq s "")) [
  | inl e ↦ absurd (empty_not_long ((eq_iff s "").0 e) h)
  | inr e ↦ rw e (rw h refl)
]
  where
    empty_not_long : s ≡ "" → ltb max_accurate_encode_len (len s) ≡ true → ⊥
    empty_not_long p q = cc (rw p at q)

-- The short cut for long prompts changes nothing: over any list of messages the estimate is the token
-- count of the whole text, as if that were always built.
pub estimate_prompt_tokens-count_tokens :
    (encoder : Encoder) (printed : String) (m : Option Content) (ms : List (Option Content))
    → estimate_prompt_tokens encoder printed (some (m ∷ ms))
      ≡ count_tokens encoder (prompt_text (m ∷ ms))
unfolding estimate_prompt_tokens
estimate_prompt_tokens-count_tokens encoder printed m ms =
    elim (Bool-cases (ltb max_accurate_encode_len (total_bytes (m ∷ ms)))) [
      | inl long ↦ rw long (
          sym (
            long_text encoder (prompt_text (m ∷ ms)) (rw total_bytes-len long)
            ∙ ap (λ n. n / 4) (total_bytes-len (m ∷ ms))))
      | inr short ↦ rw short refl
    ]
