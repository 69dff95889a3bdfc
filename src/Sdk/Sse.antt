-- ===== src/Sdk/Sse.antt =====
-- packages/sdk/src/sse.ts: server-sent events. A text is the list of its characters' numbers, and
-- each chunk is what the decoder gave for one read.
pub mod Chunks
use Prim.Native.Char.{code}
use Prim.Native.String
use firemig.Prelude.{
  is_space, ℕ, zero, suc, ◌+◌, ◌-◌, ◌*◌, String, Bool, true, false, not, ◌&&◌, ◌||◌, Option, none,
  some, List, [], ◌∷◌, ◌++◌, length, all, any, leb, ◌==◌, if◌then◌else◌,
}

abbrev pub Text : Type 0
Text = List ℕ

abbrev pub codes : String → Text
codes String.[] = []
codes (String.◌∷◌ c s) = code c ∷ codes s

abbrev pub same_text : Text → Text → Bool
same_text [] [] = true
same_text [] (d ∷ ds) = false
same_text (c ∷ cs) [] = false
same_text (c ∷ cs) (d ∷ ds) = c == d && same_text cs ds

pub record SseEvent : Type 0 where
  pub event : Text
  pub content : Text
  pub id : Option Text
  pub retry : Option ℕ

abbrev line_feed : ℕ
line_feed = 10

abbrev carriage_return : ℕ
carriage_return = 13

-- What stands behind a boundary at the front: /\r\n\r\n|\n\n|\r\r/
abbrev behind_crlf : Text → Option Text
behind_crlf (c ∷ d ∷ rest) = if c == carriage_return && d == line_feed then some rest else none
behind_crlf _ = none

unfoldable pub behind_boundary : Text → Option Text
behind_boundary (c ∷ d ∷ rest) =
    if c == line_feed && d == line_feed
    then some rest
    else if c == carriage_return && d == carriage_return
    then some rest
    else if c == carriage_return && d == line_feed
    then behind_crlf rest
    else none
behind_boundary _ = none

abbrev behind_char : ℕ → Option (Text × Text) → Option (Text × Text)
behind_char c none = none
behind_char c (some (block, rest)) = some (c ∷ block, rest)

-- The text before the first boundary, and the text behind it.
unfoldable pub split_block : Text → Option (Text × Text)
unfolding behind_boundary
split_block [] = none
split_block (c ∷ rest) =
    let later = behind_char c (split_block rest) in
    elim (behind_boundary (c ∷ rest)) [ some behind ↦ some ([], behind) | none ↦ later ]

-- The loop over the boundaries of the buffer: the blocks, and what is left. Each block takes a
-- boundary away, so its length is fuel enough.
unfoldable pub blocks : ℕ → Text → List Text × Text
unfolding split_block
blocks zero buffer = ([], buffer)
blocks (suc fuel) buffer = elim (split_block buffer) [
  | none ↦ ([], buffer)
  | some (block, rest) ↦ let later = blocks fuel rest in (block ∷ later.0, later.1)
]

-- `.replace(/\r\n/g, "\n").replace(/\r/g, "\n")`
unfoldable pub replace_crlf : Text → Text
replace_crlf [] = []
replace_crlf (c ∷ []) = c ∷ []
replace_crlf (c ∷ d ∷ rest) =
    let whole = line_feed ∷ replace_crlf rest in
    let kept = c ∷ replace_crlf (d ∷ rest) in
    if c == carriage_return && d == line_feed then whole else kept

unfoldable pub replace_cr : Text → Text
replace_cr [] = []
replace_cr (c ∷ rest) = (if c == carriage_return then line_feed else c) ∷ replace_cr rest

unfoldable pub normalize : Text → Text
unfolding replace_crlf replace_cr
normalize block = replace_cr (replace_crlf block)

-- `block.split("\n")`: the first line and the lines behind it.
unfoldable pub lines_of : Text → Text × List Text
lines_of [] = ([], [])
lines_of (c ∷ rest) =
    let (line, later) = lines_of rest in
    if c == line_feed then ([], line ∷ later) else (c ∷ line, later)

abbrev colon : ℕ
colon = 58

abbrev space : ℕ
space = 32

-- The text before the first colon and the text behind it; a line with no colon is a field's name.
unfoldable pub cut_at_colon : Text → Text × Text
cut_at_colon [] = ([], [])
cut_at_colon (c ∷ rest) =
    let (field, value) = cut_at_colon rest in if c == colon then ([], rest) else (c ∷ field, value)

unfoldable pub drop_space : Text → Text
drop_space [] = []
drop_space (c ∷ rest) = if c == space then rest else c ∷ rest

abbrev is_digit : ℕ → Bool
is_digit c = leb b'0' c && leb c b'9'

unfoldable pub number_of : ℕ → Text → ℕ
number_of n [] = n
number_of n (c ∷ rest) = number_of (n * 10 + (c - b'0')) rest

-- /^\d+$/ and `Number(value)`
unfoldable pub retry_of : Text → Option ℕ
unfolding number_of
retry_of [] = none
retry_of (c ∷ rest) = if all is_digit (c ∷ rest) then some (number_of 0 (c ∷ rest)) else none

-- The variables of `parseSseBlock`; `content` is the list `data`.
pub record Fields : Type 0 where
  pub event : Text
  pub id : Option Text
  pub retry : Option ℕ
  pub content : List Text

abbrev or_kept : Option ℕ → Option ℕ → Option ℕ
or_kept none kept = kept
or_kept (some n) kept = some n

unfoldable pub read_field : Text → Text → Fields → Fields
unfolding retry_of
read_field field value fields =
    if same_text field (codes "event")
    then record fields { event = value }
    else if same_text field (codes "data")
    then record fields { content = fields.content ++ value ∷ [] }
    else if same_text field (codes "id") && not (any (λ c. c == 0) value)
    then record fields { id = some value }
    else if same_text field (codes "retry")
    then record fields { retry = or_kept (retry_of value) fields.retry }
    else fields

unfoldable pub read_line : Text → Fields → Fields
unfolding read_field cut_at_colon drop_space
read_line [] fields = fields
read_line (c ∷ rest) fields =
    if c == colon
    then fields
    else let (field, value) = cut_at_colon (c ∷ rest) in read_field field (drop_space value) fields

unfoldable pub read_lines : List Text → Fields → Fields
unfolding read_line
read_lines [] fields = fields
read_lines (line ∷ rest) fields = read_lines rest (read_line line fields)

unfoldable pub join_lines : Text → List Text → Text
join_lines first [] = first
join_lines first (line ∷ rest) = first ++ line_feed ∷ join_lines line rest

abbrev event_of : Fields → List Text → Option SseEvent
event_of fields [] = none
event_of fields (first ∷ rest) = some (record {
  event = fields.event;
  content = join_lines first rest;
  id = fields.id;
  retry = fields.retry;
})

unfoldable pub parse_sse_block : Text → Option SseEvent
unfolding lines_of read_lines join_lines
parse_sse_block block =
    let (first, rest) = lines_of block in
    let fields =
      read_lines (first ∷ rest)
        (record { event = codes "message"; id = none; retry = none; content = [] }) in
    event_of fields fields.content

abbrev with_event : Option SseEvent → List SseEvent → List SseEvent
with_event none events = events
with_event (some event) events = event ∷ events

-- The events of the blocks that hold any.
unfoldable pub events_of : List Text → List SseEvent
unfolding normalize parse_sse_block
events_of [] = []
events_of (block ∷ rest) = with_event (parse_sse_block (normalize block)) (events_of rest)

-- `buffer.replace(/^\uFEFF/, "")`
unfoldable pub strip_mark : Text → Text
strip_mark [] = []
strip_mark (c ∷ rest) = if c == 65279 then rest else c ∷ rest

-- What is left behind the last read is a block too, unless it is blank.
unfoldable pub last_event : Text → List SseEvent
unfolding normalize parse_sse_block
last_event buffer =
    if all is_space buffer then [] else with_event (parse_sse_block (normalize buffer)) []

-- The loop over the reads, behind the first chunk.
unfoldable pub read_chunks : Text → List Text → List SseEvent
unfolding blocks events_of last_event
read_chunks buffer [] = last_event buffer
read_chunks buffer (chunk ∷ rest) =
    let (found, left) = blocks (length (buffer ++ chunk)) (buffer ++ chunk) in
    events_of found ++ read_chunks left rest

unfoldable pub parse_sse : List Text → List SseEvent
unfolding read_chunks strip_mark
parse_sse [] = []
parse_sse (chunk ∷ rest) = read_chunks [] (strip_mark chunk ∷ rest)
