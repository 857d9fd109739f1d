-- ===== src/Db/Log.antt =====
-- The writes that only append (the ledger, comments, messages) keep every property that does not
-- read those tables.
use advisoryhub.Prelude.{ℕ, Bool, List, Text}
use advisoryhub.Accounts.{Actor}
use advisoryhub.Tasks.{AdvisoryComment, CommentVersion}
use advisoryhub.Db.{
  Db, AuditEntry, Message, Action, record_action, on_commit, add_system_comment, record_action_note,
}
use advisoryhub.Db.Keeps.{Keeps, keeps_rules}

-- `P` reads neither the ledger, nor comments, nor messages, nor the next key.
pub record IsQuiet (P : Db → Type 0) : Type 0 where
  pub at :
      (db : Db) (n : ℕ) (c : List AdvisoryComment) (v : List CommentVersion) (a : List AuditEntry)
      (o : List Message)
      → P db
      → P (record db { next_pk = n; comments = c; comment_versions = v; audit = a; outbox = o })

module _ {P : Db → Type 0} (quiet : IsQuiet P) where
  pub Keeps-record_action : (a : Action) (by : Actor) (pk : ℕ) → Keeps P (record_action a by pk)
  unfolding record_action
  Keeps-record_action a by pk = record { at = λ db h. quiet.at db _ _ _ _ _ h }

  pub Keeps-on_commit : (m : Message) → Keeps P (on_commit m)
  unfolding on_commit
  Keeps-on_commit m = record { at = λ db h. quiet.at db _ _ _ _ _ h }

  add_system_comment-Keeps :
      (pk : ℕ) (by : Actor) (t : Text) (b : Bool) → Keeps P (add_system_comment pk by t b)
  unfolding add_system_comment
  add_system_comment-Keeps pk by t b = record { at = λ db h. quiet.at db _ _ _ _ _ h }

  pub Keeps-record_action_note :
      (pk : ℕ) (by : Actor) (t : Text) (b : Bool) → Keeps P (record_action_note pk by t b)
  unfolding record_action_note
  Keeps-record_action_note pk by t b = search (keeps_rules, add_system_comment-Keeps)

pub ruleset log_rules = (Keeps-record_action, Keeps-on_commit, Keeps-record_action_note)
