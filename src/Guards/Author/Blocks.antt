-- ===== src/Guards/Author/Blocks.antt =====
-- A session that authored an issue cannot go on to claim it.
use issuekit.Prelude.{
  ℕ, String, ◌≡◌, ◌≢◌, ◌⊎◌, refl, Bool, true, false, Option, none, some, List, [], ◌∷◌, is_empty,
  any, err, workflow, arith, eq_refl, eq_iff, Option-cases, inl, inr,
}
use issuekit.Prelude.Dict.{get}
use issuekit.Prelude.Text.{strip}
use issuekit.Prelude.Decimal.{show, show-strip, show-not_empty}
use issuekit.Core.WorkerKey.{strip_or_empty}
use issuekit.Config.{IssuekitConfig, has}
use issuekit.Guards.Author.{
  Table, LocalConfig, LocalFile, AuthorGuard, GuardedItem, read_local_config, keep_keys,
  author_guard_keys, written_guards, write_author_guards, to_dict, replace_guard, with_author_guard,
  new_guard, create_author_guard, guard_from_mapping, guards_from, read_author_guards, blocks,
  guard_blocks_issue_lifecycle, orchestration_allows_issue_lifecycle, enforce_author_handoff,
  enforce_no_author_guard, text_at,
}
use issuekit.Guards.Author.Record.{get-written}

module _ (p : AuthorGuard → Bool) (kind ref : String) (entry : Table) (g : AuthorGuard) where
  any-replace_guard :
      (guards : List Table)
      → guard_from_mapping (keep_keys author_guard_keys entry) ≡ some g
      → p g ≡ true
      → any p (guards_from (written_guards (replace_guard kind ref entry false guards))) ≡ true
  unfolding replace_guard guards_from written_guards
  any-replace_guard [] read holds = ground arith
  any-replace_guard (t ∷ guards) read holds =
      elim (Option-cases (guard_from_mapping (keep_keys author_guard_keys t))) [
        | inl unread ↦ ground (arith, any-replace_guard guards)
        | inr (h, same) ↦ ground (arith, any-replace_guard guards)
      ]

-- What a table with a project and a kind is read as.
guard_from_mapping-some :
    (raw : Table)
    → is_empty (text_at raw "project") ≡ false
    → is_empty (text_at raw "kind") ≡ false
    → (g : AuthorGuard) × (guard_from_mapping raw ≡ some g)
      × (g.project ≡ text_at raw "project")
      × (g.kind ≡ text_at raw "kind")
      × (g.id ≡ text_at raw "id")
unfolding guard_from_mapping
guard_from_mapping-some raw project kind = rw (project, kind) (_, refl, refl, refl, refl)

module _ (config : IssuekitConfig) (now : String) (item : GuardedItem) (n : ℕ)
    (clean : strip config.project ≡ config.project) (named : config.project ≢ "")
    (kind : item.kind ≡ "issue") (id : item.item_id ≡ some n) where
  abbrev entry : Table
  entry = to_dict (new_guard config now item)

  abbrev written : Table
  written = keep_keys author_guard_keys entry

  written-project : text_at written "project" ≡ config.project
  unfolding to_dict new_guard get strip_or_empty has
  written-project = rw (get-written "project" entry refl) clean

  written-kind : text_at written "kind" ≡ "issue"
  unfolding to_dict new_guard get strip_or_empty strip has
  written-kind = rw (get-written "kind" entry refl, kind) refl

  written-id : text_at written "id" ≡ show n
  unfolding to_dict new_guard get strip_or_empty has
  written-id = rw (get-written "id" entry refl, id) (show-strip n)

  read_guard :
      (g : AuthorGuard) × (guard_from_mapping written ≡ some g)
      × (g.project ≡ text_at written "project")
      × (g.kind ≡ text_at written "kind")
      × (g.id ≡ text_at written "id")
  read_guard =
      guard_from_mapping-some written (ground (arith, written-project, eq_iff config.project ""))
        (rw written-kind refl)

  any-blocks :
      (issue_id : Option ℕ) (guards : List Table)
      → (issue_id ≡ none) ⊎ (issue_id ≡ some n)
      → any
          (blocks config issue_id none)
          (guards_from (written_guards (with_author_guard guards (new_guard config now item))))
        ≡ true
  unfolding with_author_guard blocks guard_blocks_issue_lifecycle
      orchestration_allows_issue_lifecycle
  any-blocks issue_id guards which =
      let (g, read, project, its_kind, its_id) = read_guard in
      any-replace_guard (blocks config issue_id none) (new_guard config now item).kind
        (new_guard config now item).ref entry g guards read
        (elim which [
          | inl any ↦
              rw (any, project, written-project, eq_refl config.project, its_kind, written-kind)
                refl
          | inr this ↦
              rw
                (
                  this,
                  project,
                  written-project,
                  eq_refl config.project,
                  its_kind,
                  written-kind,
                  its_id,
                  written-id,
                  show-not_empty n,
                  eq_refl (show n),
                )
                refl
        ])

-- Where handoffs are enforced, a checkout that has just recorded an authored issue may neither claim
-- that issue nor whichever comes next, whatever else its local file holds, as long as there is neither
-- an override nor an orchestration.
pub create_author_guard-blocks :
    (env : Option String) (config : IssuekitConfig) (now : String) (item : GuardedItem) (n : ℕ)
    (local_config : LocalConfig) (issue_id : Option ℕ)
    → enforce_author_handoff env ≡ true
    → strip config.project ≡ config.project
    → config.project ≢ ""
    → item.kind ≡ "issue"
    → item.item_id ≡ some n
    → (issue_id ≡ none) ⊎ (issue_id ≡ some n)
    → enforce_no_author_guard env
        (create_author_guard config now item (LocalFile.present local_config)).1
        config
        issue_id
        false
        none
      ≡ err (workflow "author_session_guard")
unfolding enforce_no_author_guard create_author_guard read_local_config read_author_guards
    write_author_guards
create_author_guard-blocks env config now item n local_config issue_id enforced clean named kind id
      which =
    rw
      (
        enforced,
        any-blocks config now item n clean named kind id issue_id local_config.author_guards which,
      )
      refl
