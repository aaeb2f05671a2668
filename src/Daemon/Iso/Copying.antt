-- ===== src/Daemon/Iso/Copying.antt =====
-- daemon/server.go, the handler of `DownloadISORequest`: the goroutine that copies the image, and
-- the deferred close of the handler that started it.
use mechanicaldinosaurs.Base.{
  ℕ, zero, suc, ◌≤◌, ◌<◌, Bytes, length, drop, if◌then◌else◌, ◌≡◌, refl, Bool, true, false, Option,
  none, some, List, [], ◌∷◌, ◌++◌, arith,
}

pub data CopyState : Type 0 where
  copying complete removed : CopyState

-- The file as it was, as it is opened without O_TRUNC; what was written to it; the pieces of the
-- body that are left, and whether the body ends in an error; whether the file is open.
pub record Copy : Type 0 where
  pub old : Bytes
  pub written : Bytes
  pub rest : List Bytes
  pub fails : Bool
  pub is_open : Bool
  pub state : CopyState

-- What the file holds.
abbrev pub contents : Copy → Option Bytes
contents c = elim c.state [ removed ↦ none | _ ↦ some (c.written ++ drop (length c.written) c.old) ]

-- A step of the goroutine: one piece of the body; an error of the body or of the write, which a
-- closed file gives, removes the file.
unfoldable pub copy_step : Copy → Copy
copy_step c = elim c.state [
  | copying ↦ elim c.rest [
    | [] ↦ record c { state = if c.fails then removed else complete }
    | piece ∷ pieces ↦
        if c.is_open
        then record c { written = c.written ++ piece; rest = pieces }
        else record c { state = removed }
  ]
  | _ ↦ c
]

unfoldable pub copy_steps : ℕ → Copy → Copy
unfolding copy_step
copy_steps zero c = c
copy_steps (suc n) c = copy_steps n (copy_step c)

-- The deferred `file.Close()`.
abbrev pub close_file : Copy → Copy
close_file c = record c { is_open = false }

-- A schedule: the steps of the goroutine before and after the handler returns.
unfoldable pub copy_run : ℕ → ℕ → Copy → Copy
unfolding copy_steps
copy_run before after c = copy_steps after (close_file (copy_steps before c))

-- A download of which some is written.
abbrev going : Bytes → Bytes → List Bytes → Bool → Copy
going old written pieces fails = record {
  old = old;
  written = written;
  rest = pieces;
  fails = fails;
  is_open = true;
  state = copying;
}

-- A download that has begun.
abbrev pub begun : Bytes → List Bytes → Bool → Copy
begun old pieces fails = going old [] pieces fails

copy_steps-removed : (n : ℕ) (c : Copy) → c.state ≡ removed → contents (copy_steps n c) ≡ none
unfolding copy_steps copy_step
copy_steps-removed zero c h = rw h refl
copy_steps-removed (suc n) c h = copy_steps-removed n (copy_step c) (rw (copy_step, h) h)

abbrev ended : Bytes → Bytes → Bool → Copy
ended old written open_still = record {
  old = old;
  written = written;
  rest = [];
  fails = false;
  is_open = open_still;
  state = complete;
}

removed_from :
    (before after : ℕ) (old written : Bytes) (pieces : List Bytes) (fails : Bool)
    → before < length pieces
    → contents (copy_run before (suc after) (going old written pieces fails)) ≡ none
unfolding copy_run copy_steps copy_step
removed_from before after old written [] fails h = absurd (omega arith)
removed_from zero after old written (p ∷ ps) fails h = copy_steps-removed after _ refl
removed_from (suc before) after old written (p ∷ ps) fails h =
    removed_from before after old (written ++ p) ps fails (omega arith)

-- A download of which a piece is left when the handler returns is lost: whatever the file held, and
-- even if the body ends without an error, the file is removed at the next step of the goroutine.
pub copy_run-removed :
    (before after : ℕ) (old : Bytes) (pieces : List Bytes) (fails : Bool)
    → before < length pieces
    → 1 ≤ after
    → contents (copy_run before after (begun old pieces fails)) ≡ none
copy_run-removed before zero old pieces fails h k = absurd (omega arith)
copy_run-removed before (suc after) old pieces fails h k =
    removed_from before after old [] pieces fails h
