-- ===== src/Ai/Policy/Allow.antt =====
-- What the policy allows.
use hnmos.Prelude.{ℕ, ◌≡◌, ◌≢◌, Bool, not, ◌&&◌, ◌||◌, ◌⊎◌, Option, none, some, List, arith}
use hnmos.Prelude.Buffer.{codes}
use hnmos.Ai.Policy.{
  Capability, read_workspace, write_hnlang_draft, read_build_log, allow, deny, has_prefix,
  prefix_matches, contains_parent_reference, two_dots, has_hnlang_suffix, decide, decide_path,
  is_write_draft, is_allow,
}
use hnmos.Ai.Policy.Paths.{StartsWith, HasTwoDots, EndsWith}

-- The capabilities that are granted without asking.
pub data Granted : Capability → Type 0 where
  reads : Granted read_workspace
  drafts : Granted write_hnlang_draft
  logs : Granted read_build_log

-- A path inside the workspace; a draft is an HNLang file.
pub record Inside (capability : Capability) (path : List ℕ) : Type 0 where
  pub below : StartsWith path (codes "/workspace/")
  pub straight : ¬ HasTwoDots path
  pub hnlang : capability ≡ write_hnlang_draft → EndsWith path (codes ".hn")

module _ (c : Capability) (path : List ℕ) where
  -- The tests that the code makes.
  abbrev passes : Bool
  passes =
      is_allow (decide c)
      && prefix_matches path (codes "/workspace/")
      && not (two_dots path)
      && (not (is_write_draft c) || has_hnlang_suffix (some path))

-- With any path the decision is that for the capability alone or to deny, and with the null pointer
-- it is never to allow: on paths the policy only takes away.
pub decide_path-narrows :
    (capability : Capability) (path : Option (List ℕ))
    → ((decide_path capability path ≡ decide capability) ⊎ (decide_path capability path ≡ deny))
      × (decide_path capability none ≢ allow)
unfolding decide_path has_prefix contains_parent_reference
decide_path-narrows capability path = (ground arith, λ e. ground arith)
