-- ===== src/Accounts.antt =====
-- Users, groups, projects and the settings that authorization reads
-- (accounts/models.py, projects/models.py, common/users.py).
use advisoryhub.Prelude.{ℕ, Bool, Option, none, some, List, [], Text, blank, codes, text_eq, ◌==◌}

-- A row of Django's `Group`.
pub record Group : Type 0 where
  pub pk : ℕ
  pub name : Text

-- An authenticated user, with the groups that it belongs to.
pub record Account : Type 0 where
  pub pk : ℕ
  pub email : Text
  pub groups : List Group

-- What the services receive as `by`: `None`, Django's `AnonymousUser`, or an authenticated user.
pub data Actor : Type 0 where
  nobody : Actor
  anonymous : Actor
  account : Account → Actor

-- `actor_or_none`, as the foreign key that is stored.
abbrev pub actor_or_none : Actor → Option ℕ
actor_or_none Actor.nobody = none
actor_or_none Actor.anonymous = none
actor_or_none (Actor.account u) = some u.pk

-- The user that a foreign key names, as the actor of a ledger row: only its key is read there.
abbrev pub stored_actor : Option ℕ → Actor
stored_actor none = Actor.nobody
stored_actor (some pk) = Actor.account (record { pk = pk; email = blank; groups = [] })

-- A GitHub repository of a project, as far as authorization reads it.
pub record Repository : Type 0 where
  pub soft_removed_at : Option ℕ
  pub pvr_enabled : Bool

pub record Project : Type 0 where
  pub pk : ℕ
  pub slug : Text
  pub name : Text
  pub security_team_id : ℕ
  pub is_mature_publisher : Bool
  pub github_repositories : List Repository

-- Two model instances are equal when their primary keys are.
abbrev pub same_project : Project → Project → Bool
same_project p q = p.pk == q.pk

abbrev pub unsorted_project_slug : Text
unsorted_project_slug = codes "unsorted"

pub is_unsorted : Project → Bool
is_unsorted p = text_eq p.slug unsorted_project_slug

-- The environment-driven settings.
pub record Settings : Type 0 where
  pub oidc_admin_group : Text
  pub ghsa_feature_enabled : Bool
  pub pub_task_stale_running_after_seconds : ℕ
  pub pub_task_stale_queued_after_seconds : ℕ
  pub ghsa_cve_push_stale_running_after_seconds : ℕ
  pub ghsa_cve_push_stale_queued_after_seconds : ℕ
  -- the code points that `\d` of Python's `re` matches
  pub is_decimal : ℕ → Bool
