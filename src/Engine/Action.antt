-- ===== src/Engine/Action.antt =====
-- automation-engine/action.go: the two actions, and the template that renders their text.
pub mod Matching
pub mod Mentioned
pub mod Rendered
pub mod Rendering
pub mod Templates
use mechanicaldinosaurs.Base.{
  ℕ, zero, suc, ◌-◌, Bytes, codes, has_prefix, leb, ◌==◌, if◌then◌else◌, length, Outcome, ok, err,
  panic, ◌>>=◌, ◌⊎◌, inl, inr, Bool, true, false, ◌&&◌, ◌||◌, Option, none, some, List, [], ◌∷◌,
  ◌++◌,
}
use mechanicaldinosaurs.Engine.Context.{Platform, Entries, not_found, get}

pub record EmailAction : Type 0 where
  pub to : Bytes
  pub subject : Bytes
  pub body : Bytes

pub record SlackAction : Type 0 where
  pub conversation_id : Bytes
  pub message : Bytes

pub data Action : Type 0 where
  email_action : EmailAction → Action
  slack_action : SlackAction → Action

-- The two methods `Type`.
unfoldable pub action_type : Action → Bytes
action_type (email_action e) = codes "email"
action_type (slack_action s) = codes "slack"

-- The white space `\s` and the class `[a-zA-Z0-9_.]` of `varRegex`.
abbrev pub is_blank : ℕ → Bool
is_blank c = c == 9 || c == 10 || c == 12 || c == 13 || c == 32

abbrev pub is_name_byte : ℕ → Bool
is_name_byte c =
    (leb b'a' c && leb c b'z')
    || (leb b'A' c && leb c b'Z')
    || (leb b'0' c && leb c b'9')
    || c == b'_'
    || c == b'.'

-- The longest prefix whose bytes pass the test, and what follows it.
pub span : (ℕ → Bool) → Bytes → Bytes × Bytes
span test [] = ([], [])
span test (c ∷ s) = let (xs, rest) = span test s in if test c then (c ∷ xs, rest) else ([], c ∷ s)

-- One match: `match[0]` and `match[1]`.
pub record Match : Type 0 where
  pub full : Bytes
  pub name : Bytes

-- What is left behind two braces `b`, if the text begins with them.
abbrev strip_braces : ℕ → Bytes → Option Bytes
strip_braces b (c ∷ d ∷ s) = if c == b && d == b then some s else none
strip_braces b _ = none

-- A match of `varRegex` at the head of the text. The classes of its three repetitions exclude what
-- follows each, so that the longest repetition is the only one that can match.
pub match_here : Bytes → Option Match
unfolding span
match_here s = elim (strip_braces b'{' s) [
  | none ↦ none
  | some inner ↦
      let (blanks, rest) = span is_blank inner in
      let (name, after_name) = span is_name_byte rest in
      let (more_blanks, closing) = span is_blank after_name in
      elim name [
        | [] ↦ none
        | c ∷ cs ↦ elim (strip_braces b'}' closing) [
          | none ↦ none
          | some tail ↦ some (record {
            full = b'{' ∷ b'{' ∷ (blanks ++ (c ∷ cs) ++ more_blanks ++ b'}' ∷ b'}' ∷ []);
            name = c ∷ cs;
          })
        ]
      ]
]

-- `varRegex.FindAllStringSubmatch(body, -1)`: the matches from left to right; the first argument
-- counts the bytes of the last match that are still to be passed over.
pub find_all : ℕ → Bytes → List Match
unfolding match_here
find_all skip [] = []
find_all (suc skip) (c ∷ s) = find_all skip s
find_all zero (c ∷ s) = elim (match_here (c ∷ s)) [
  | none ↦ find_all zero s
  | some m ↦ m ∷ find_all (length m.full - 1) s
]

-- `strings.ReplaceAll(body, old, new)` for a text `old` that is not empty, with the same counter.
pub replace_from : ℕ → Bytes → Bytes → Bytes → Bytes
replace_from skip [] old new = []
replace_from (suc skip) (c ∷ s) old new = replace_from skip s old new
replace_from zero (c ∷ s) old new = elim (has_prefix (c ∷ s) old) [
  | true ↦ new ++ replace_from (length old - 1) s old new
  | false ↦ c ∷ replace_from zero s old new
]

unfoldable pub replace_all : Bytes → Bytes → Bytes → Bytes
unfolding replace_from has_prefix
replace_all = replace_from zero

module _ {F : Type 0} (p : Platform F) where
  -- The loop over the matches: a variable that is not found is left as it stands.
  replace_matches : Bytes → Entries F → List Match → Outcome ⊥ Bytes
  unfolding get replace_all
  replace_matches body ctx [] = ok body
  replace_matches body ctx (m ∷ ms) = elim (get ctx m.name) [
    | ok v ↦ replace_matches (replace_all body m.full (p.sprint v)) ctx ms
    | err not_found ↦ replace_matches body ctx ms
    | panic ↦ panic
  ]

  -- `renderTemplate`; it panics if a lookup does.
  unfoldable pub render_template : Bytes → Entries F → Outcome ⊥ Bytes
  unfolding find_all replace_matches
  render_template body ctx = replace_matches body ctx (find_all 0 body)

-- What the actions hand to the outside: an email to send, or a message to post.
pub data Request : Type 0 where
  send_email : Bytes → Bytes → Bytes → Request
  post_message : Bytes → Bytes → Request

-- The Resend client answers with an error or none; Slack's API with a status, or an error.
pub record Transport : Type 0 where
  pub send : Bytes → Bytes → Bytes → Option Bytes
  pub post : Bytes → Bytes → Bytes ⊎ ℕ

pub data ActionError : Type 0 where
  send_email_failed : Bytes → ActionError
  slack_request_failed : Bytes → ActionError
  slack_status : ℕ → ActionError

abbrev email_result : Option Bytes → Option ActionError
email_result none = none
email_result (some e) = some (send_email_failed e)

abbrev slack_result : Bytes ⊎ ℕ → Option ActionError
slack_result (inr status) = if status == 200 then none else some (slack_status status)
slack_result (inl e) = some (slack_request_failed e)

module _ {F : Type 0} (p : Platform F) (transport : Transport) where
  -- The two methods `Do`: the request that was made, and the error, if there is one.
  unfoldable pub do_action : Action → Entries F → Outcome ⊥ (Request × Option ActionError)
  unfolding render_template
  do_action (email_action e) ctx = do
    rendered ← render_template p e.body ctx
    ok (send_email e.to e.subject rendered, email_result (transport.send e.to e.subject rendered))
  do_action (slack_action s) ctx = do
    rendered ← render_template p s.message ctx
    ok (
      post_message s.conversation_id rendered,
      slack_result (transport.post s.conversation_id rendered),
    )
