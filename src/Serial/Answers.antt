-- ===== src/Serial/Answers.antt =====
-- Which line answers a command: described on the lines alone, and what the queue hands over.
use iot_lab_gateway.Prelude.{
  String, ◌≡◌, refl, ◌∙◌, ap, true, false, Option, none, some, List, [], ◌∷◌, arith, same,
  if◌then◌else◌, Bool-cases, inl, inr,
}
use iot_lab_gateway.Text.{split, strip, join, concat}
use iot_lab_gateway.Effects.{World, State, returned, exchange, lines, broken_pipe, Exchange}
use iot_lab_gateway.Serial.{
  Serial, Tag, tag_of, handle_tagged, handle_answer, read_lines, send_command, config_ack, error,
  serial_error, measure, ready, answer, head_word, put_nowait, measures_handler,
}

-- A line reports an event, answers a command, or is too short for its tag.
pub data Meaning : Type 0 where
  event malformed : Meaning
  reply : List String → Meaning

unfoldable pub meaning_of : Tag → List String → Meaning
meaning_of config_ack (_ ∷ []) = malformed
meaning_of config_ack (_ ∷ kind ∷ []) = if same kind "set_time" then malformed else event
meaning_of error (_ ∷ []) = malformed
meaning_of answer words = reply words
meaning_of _ _ = event

unfoldable pub meaning : String → Meaning
unfolding meaning_of tag_of split
meaning line = let words = split b' ' line in meaning_of (tag_of (head_word words)) words

-- The words of the first line that answers a command; reading ends at a malformed line.
unfoldable pub first_answer : List String → Option (List String)
unfolding meaning strip
first_answer [] = none
first_answer (line ∷ rest) =
    let later = first_answer rest in
    elim (meaning (strip line)) [ event ↦ later | malformed ↦ none | reply words ↦ some words ]

-- What the reader thread does with a line, by its meaning.
abbrev Handles : Meaning → Option Serial → Serial → Type 0
Handles event o s = (t : Serial) × (o ≡ some t) × (t.msgs ≡ s.msgs)
Handles malformed o s = o ≡ none
Handles (reply words) o s = o ≡ some (put_nowait words s)

measures_handler-msgs : (line : String) (s : Serial) → (measures_handler line s).msgs ≡ s.msgs
measures_handler-msgs line s = ground arith

handle_tagged-Handles :
    (tag : Tag) (words : List String) (line : String) (s : Serial)
    → Handles (meaning_of tag words) (handle_tagged tag words line s) s
unfolding meaning_of handle_tagged
handle_tagged-Handles config_ack [] line s = (s, refl, refl)
handle_tagged-Handles config_ack (_ ∷ []) line s = refl
handle_tagged-Handles config_ack (_ ∷ kind ∷ []) line s = elim (Bool-cases (same kind "set_time")) [
  | inl e ↦ rw e refl
  | inr e ↦ rw e (s, refl, refl)
]
handle_tagged-Handles config_ack (_ ∷ _ ∷ _ ∷ _) line s = (s, refl, refl)
handle_tagged-Handles error [] line s = (s, refl, refl)
handle_tagged-Handles error (_ ∷ []) line s = refl
handle_tagged-Handles error (_ ∷ _ ∷ _) line s = (s, refl, refl)
handle_tagged-Handles serial_error words line s = (s, refl, refl)
handle_tagged-Handles measure words line s =
    (measures_handler line s, refl, measures_handler-msgs line s)
handle_tagged-Handles ready words line s = (s, refl, refl)
handle_tagged-Handles answer words line s = refl

handle_answer-Handles :
    (line : String) (s : Serial) → Handles (meaning line) (handle_answer line s) s
unfolding meaning handle_answer
handle_answer-Handles line s =
    let words = split b' ' line in handle_tagged-Handles (tag_of (head_word words)) words line s

read_lines-none :
    (line : String) (rest : List String) (s : Serial)
    → handle_answer (strip line) s ≡ none
    → read_lines (line ∷ rest) s ≡ record s { reader_thread = false }
unfolding read_lines
read_lines-none line rest s e =
    λ i. elim (e i) [ none ↦ record s { reader_thread = false } | some t ↦ read_lines rest t ]

read_lines-some :
    (line : String) (rest : List String) (s : Serial) {t : Serial}
    → handle_answer (strip line) s ≡ some t
    → read_lines (line ∷ rest) s ≡ read_lines rest t
unfolding read_lines
read_lines-some line rest s e =
    λ i. elim (e i) [ none ↦ record s { reader_thread = false } | some t ↦ read_lines rest t ]

-- What a non-empty queue holds stays: later answers are dropped.
read_lines-kept :
    (ls : List String) (s : Serial) {a : List String}
    → s.msgs ≡ some a
    → (read_lines ls s).msgs ≡ some a
read_lines-kept [] s h = unfold read_lines in h
read_lines-kept (line ∷ rest) s {a} h =
    go (meaning (strip line)) (handle_answer-Handles (strip line) s)
      (λ t e. read_lines-kept rest t e)
  where
    go :
        (m : Meaning)
        → Handles m (handle_answer (strip line) s) s
        → ((t : Serial) → t.msgs ≡ some a → (read_lines rest t).msgs ≡ some a)
        → (read_lines (line ∷ rest) s).msgs ≡ some a
    go event (t, e, same_msgs) ih = rw (read_lines-some line rest s e) (ih t (same_msgs ∙ h))
    go malformed e ih = rw (read_lines-none line rest s e) h
    go (reply words) e ih = rw (read_lines-some line rest s e) (ih _ (ground arith))

abbrev answer_of : Meaning → Option (List String) → Option (List String)
answer_of m later = elim m [ event ↦ later | malformed ↦ none | reply words ↦ some words ]

first_answer-cons :
    (line : String) (rest : List String) {m : Meaning}
    → meaning (strip line) ≡ m
    → first_answer (line ∷ rest) ≡ answer_of m (first_answer rest)
unfolding first_answer
first_answer-cons line rest e =
    λ i. elim (e i) [ event ↦ first_answer rest | malformed ↦ none | reply words ↦ some words ]

-- From an empty queue the reader hands over the first answer among the lines.
read_lines-first_answer :
    (ls : List String) (s : Serial) → s.msgs ≡ none → (read_lines ls s).msgs ≡ first_answer ls
read_lines-first_answer [] s h = unfold read_lines first_answer in h
read_lines-first_answer (line ∷ rest) s h =
    go (meaning (strip line)) refl (handle_answer-Handles (strip line) s)
      (λ t e. read_lines-first_answer rest t e)
  where
    go :
        (m : Meaning)
        → meaning (strip line) ≡ m
        → Handles m (handle_answer (strip line) s) s
        → ((t : Serial) → t.msgs ≡ none → (read_lines rest t).msgs ≡ first_answer rest)
        → (read_lines (line ∷ rest) s).msgs ≡ first_answer (line ∷ rest)
    go event means (t, e, same_msgs) ih =
        rw (read_lines-some line rest s e, first_answer-cons line rest means) (ih t (same_msgs ∙ h))
    go malformed means e ih =
        rw (read_lines-none line rest s e, first_answer-cons line rest means) h
    go (reply words) means e ih =
        rw (read_lines-some line rest s e, first_answer-cons line rest means)
          (read_lines-kept rest (put_nowait words s) (ground arith))

-- What a command gets back: the first answer among the lines that come after it was written.
abbrev pub answer_to : World → List String → State Serial → Option (List String)
answer_to world args s =
    if s.self.process
    then elim (world s.trace (exchange (concat (join " " args ∷ "\n" ∷ [])))) [
      | broken_pipe ↦ none
      | lines ls ↦ if s.self.reader_thread then first_answer ls else none
    ]
    else none

abbrev sent : List String → State Serial → State Serial
sent args s = record {
  self = record s.self { msgs = none };
  trace = exchange (concat (join " " args ∷ "\n" ∷ [])) ∷ s.trace;
}

send_command-reply :
    (world : World) (args : List String) (s : State Serial) (r : Exchange)
    → world s.trace (exchange (concat (join " " args ∷ "\n" ∷ []))) ≡ r
    → s.self.process ≡ true
    → (send_command world args s).0
      ≡ returned (elim r [
        | broken_pipe ↦ none
        | lines ls ↦ if s.self.reader_thread then first_answer ls else none
      ])
unfolding send_command
send_command-reply world args s broken_pipe e running = simp (running, e)
send_command-reply world args s (lines ls) e running = elim (Bool-cases s.self.reader_thread) [
  | inl reads ↦
      simp (running, e, reads)
        (ap returned (
          read_lines-first_answer ls
            (record s.self { process = true; reader_thread = true; msgs = none }) refl))
  | inr dead ↦ simp (running, e, dead)
]

-- Whatever the queue held before, a command gets the first answer among the lines that come after
-- it was written; without a process, without the reader, or over a broken pipe, it gets none.
pub send_command-answer_to :
    (world : World) (args : List String) (s : State Serial)
    → (send_command world args s).0 ≡ returned (answer_to world args s)
send_command-answer_to world args s = elim (Bool-cases s.self.process) [
  | inl running ↦
      send_command-reply world args s
        (world s.trace (exchange (concat (join " " args ∷ "\n" ∷ [])))) refl running
      ∙ rw running
  | inr stopped ↦ unfold send_command in simp stopped
]
