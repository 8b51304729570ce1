-- ===== src/Guards/Author/Record.antt =====
-- What recording and clearing a guard do to the list of guards.
use issuekit.Prelude.{
  ◌≤◌, String, ◌≡◌, refl, Bool, true, false, not, none, some, List, [], ◌∷◌, if◌then◌else◌, ◌==◌,
  or_empty, eqb, length, select, any, ok, arith, eq_refl, eq_iff, Bool-cases, inl, inr,
}
use issuekit.Prelude.Dict.{get}
use issuekit.Config.{has}
use issuekit.Guards.Author.{
  Table, LocalConfig, LocalFile, AuthorGuard, read_local_config, keep_keys, author_guard_keys,
  written_guards, write_author_guards, to_dict, has_guard_key, replace_guard, with_author_guard,
  clear_author_guard,
}

-- `existing.get("ref", "") == ref`
abbrev pub has_ref : String → Table → Bool
has_ref ref entry = or_empty (get "ref" entry) == ref

get-keep_keys :
    (key : String) (keys : List String) (entry : Table)
    → get key (keep_keys keys entry) ≡ (if has key keys then get key entry else none)
unfolding keep_keys has get
get-keep_keys key [] entry = refl
get-keep_keys key (k ∷ keys) entry = ground (arith, get-keep_keys key keys entry, eq_iff k key)

-- A key of the guards' tables survives the writing of the file.
pub get-written :
    (key : String) (entry : Table)
    → has key author_guard_keys ≡ true
    → get key (keep_keys author_guard_keys entry) ≡ get key entry
get-written key entry h = ground (arith, get-keep_keys key author_guard_keys entry)

pub to_dict-has_guard_key : (g : AuthorGuard) → has_guard_key g.kind g.ref (to_dict g) ≡ true
unfolding to_dict has_guard_key get
to_dict-has_guard_key g = ground (arith, eq_refl g.kind, eq_refl g.ref)

module _ (kind ref : String) (entry : Table) (own : has_guard_key kind ref entry ≡ true) where
  replace_guard-replaced :
      (guards : List Table)
      → select (has_guard_key kind ref) (replace_guard kind ref entry true guards) ≡ []
  unfolding replace_guard
  replace_guard-replaced [] = refl
  replace_guard-replaced (g ∷ guards) = ground (arith, replace_guard-replaced guards)

  replace_guard-own :
      (guards : List Table)
      → select (has_guard_key kind ref) (replace_guard kind ref entry false guards) ≡ entry ∷ []
  unfolding replace_guard
  replace_guard-own [] = ground arith
  replace_guard-own (g ∷ guards) =
      ground (arith, replace_guard-own guards, replace_guard-replaced guards)

  replace_guard-others :
      (replaced : Bool) (guards : List Table)
      → select (λ g. not (has_guard_key kind ref g)) (replace_guard kind ref entry replaced guards)
        ≡ select (λ g. not (has_guard_key kind ref g)) guards
  unfolding replace_guard
  replace_guard-others true [] = refl
  replace_guard-others false [] = ground arith
  replace_guard-others true (g ∷ guards) = ground (arith, replace_guard-others true guards)
  replace_guard-others false (g ∷ guards) =
      ground (arith, replace_guard-others false guards, replace_guard-others true guards)

-- Recording a guard leaves exactly one entry of its kind and reference, its own, and every other entry
-- as it was and in the same order.
pub with_author_guard_unique :
    (guards : List Table) (g : AuthorGuard)
    → (select (has_guard_key g.kind g.ref) (with_author_guard guards g) ≡ to_dict g ∷ [])
      × (select (λ entry. not (has_guard_key g.kind g.ref entry)) (with_author_guard guards g)
          ≡ select (λ entry. not (has_guard_key g.kind g.ref entry)) guards)
unfolding with_author_guard
with_author_guard_unique guards g =
    let own = to_dict-has_guard_key g in
    (
      replace_guard-own g.kind g.ref (to_dict g) own guards,
      replace_guard-others g.kind g.ref (to_dict g) own false guards,
    )

module _ (ref : String) where
  select-length :
      (guards : List Table) → length (select (λ g. not (has_ref ref g)) guards) ≤ length guards
  select-length [] = omega arith
  select-length (g ∷ guards) = ground (arith, select-length guards)

  written-none :
      (guards : List Table)
      → any (has_ref ref) (written_guards (select (λ g. not (has_ref ref g)) guards)) ≡ false
  unfolding written_guards has
  written-none [] = refl
  written-none (g ∷ guards) = ground (arith, written-none guards, get-written "ref" g refl)

  select-same :
      (guards : List Table)
      → eqb (length (select (λ g. not (has_ref ref g)) guards)) (length guards)
        ≡ not (any (has_ref ref) guards)
  select-same [] = refl
  select-same (g ∷ guards) = ground (arith, select-same guards, select-length guards)

-- Clearing the guards of a reference leaves none of that reference in a file that can be read, and
-- answers whether there was one.
pub clear_author_guard-cleared :
    (ref : String) (config : LocalConfig)
    → (after : LocalConfig) × ((clear_author_guard (some ref) (LocalFile.present config)).0
        ≡ ok (any (has_ref ref) config.author_guards))
      × (read_local_config (clear_author_guard (some ref) (LocalFile.present config)).1 ≡ ok after)
      × (any (has_ref ref) after.author_guards ≡ false)
unfolding clear_author_guard read_local_config write_author_guards
clear_author_guard-cleared ref config =
    let same = select-same ref config.author_guards in
    elim (Bool-cases (any (has_ref ref) config.author_guards)) [
      | inl found ↦ rw (same, found) (_, refl, refl, written-none ref config.author_guards)
      | inr unfound ↦ rw (same, unfound) (config, refl, refl, unfound)
    ]
