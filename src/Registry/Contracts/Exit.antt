-- ===== src/Registry/Contracts/Exit.antt =====
-- The exit code of `main`.
use vinuchain_lists.Prelude.{List, Text, All}
use vinuchain_lists.Registry.{State}
use vinuchain_lists.Registry.Tables.{Pairwise}
use vinuchain_lists.Registry.Invariant.{Apart}
use vinuchain_lists.Registry.Complete.{Listed, dirs_of}
use vinuchain_lists.Registry.References.{HasProject, Agrees}
use vinuchain_lists.Registry.Contracts.{Repository, project_dirs}
use vinuchain_lists.Registry.Contracts.Projects.{PassedProject}

-- A registry without fault, as the tables at the end of a run show it.
pub record IsClean (q : Repository) (tokens projects : List Text) (s : State) : Type 0 where
  -- Each token directory passed and is in the table.
  pub all_listed : All (Listed q.setting s) (dirs_of q.setting tokens)
  -- Each project passed, with its contracts.
  pub all_passed : All (PassedProject q s) (project_dirs q projects)
  -- No two tokens clash.
  pub all_apart : Pairwise (λ d e. Apart q.setting (d.1) (e.1)) s.token_addresses
  -- Each project that a token declares is there.
  pub all_have_project : All (HasProject q.setting.fs q.contracts_dir) s.token_addresses
  -- Each contract in the table that is a token is of the project that the token declares.
  pub all_agree : All (Agrees s.token_addresses) s.contract_addresses
