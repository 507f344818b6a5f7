-- ===== src/Registry/Contracts/Complete.antt =====
-- The loop over the contracts of a project: what it counts, and what has passed.
use vinuchain_lists.Prelude.{
  ℕ, ◌+◌, ◌≤◌, ◌≡◌, refl, sym, ap, ◌∙◌, subst, inl, inr, Bool, true, ◌&&◌, not, some,
  some-injective, List, [], ◌∷◌, ◌++◌, codes, Text, includes, All, length, arith, Bool-cases,
  Option-cases, Outcome-cases, if◌then◌else◌, ok,
}
use vinuchain_lists.SafeJson.{safe_read_json}
use vinuchain_lists.Files.{validate_contract_name, safe_path_join}
use vinuchain_lists.Address.{validate_eip55_checksum}
use vinuchain_lists.Abi.{validate_abi}
use vinuchain_lists.Solidity.{validate_solidity_file}
use vinuchain_lists.Registry.{has, put, ContractInfo, Setting, State, one_error}
use vinuchain_lists.Registry.Tables.{has-put, has-put_same}
use vinuchain_lists.Registry.Complete.{Counted, count_seq, one_error-Counted}
use vinuchain_lists.Registry.Contracts.{
  ContractData, artifact_name, contract_key, is_registered_token, register_contract, check_names,
  check_files, count_rejection, after_files, after_register, after_names, validate_contract_files,
  contract_loop,
}

-- The tables grow, the tokens stay, and errors are only added.
abbrev pub Grows : State → State → Type 0
Grows s t =
    (s.errors ≤ t.errors)
    × (t.token_addresses ≡ s.token_addresses)
    × ((k : Text) → has s.contract_addresses k ≡ true → has t.contract_addresses k ≡ true)

pub Grows-trans : (s t u : State) → Grows s t → Grows t u → Grows s u
Grows-trans s t u (a, b, c) (d, e, f) = (omega (arith, a, d), e ∙ b, λ k h. f k (c k h))

register_contract_inv :
    (s : State) (slug : Text) (c : ContractData) (next : State)
    → register_contract s slug c ≡ some next
    → (next.errors ≡ s.errors)
      × (next.token_addresses ≡ s.token_addresses)
      × (next.contract_addresses
          ≡ put s.contract_addresses
              (contract_key c)
              (record { project = slug; contract = c.name }))
unfolding register_contract
register_contract_inv s slug c next h =
    elim (Bool-cases (includes s.all_addresses (contract_key c) && not (is_registered_token s c))) [
      | inl taken ↦ cc (rw taken at h)
      | inr free ↦
          let made = some-injective (rw free at h) in
          (
            sym (ap (λ x. x.errors) made),
            sym (ap (λ x. x.token_addresses) made),
            sym (ap (λ x. x.contract_addresses) made),
          )
    ]

module _ (r : Setting) where
  check_names-Counted : (c : ContractData) → Counted (check_names r c)
  unfolding check_names
  check_names-Counted c e h =
      count_seq (one_error 0 (validate_contract_name c.name)) _ h (one_error-Counted 0 _) (λ u h₁.
        count_seq (one_error 0 (validate_contract_name (artifact_name c))) _ h₁
          (one_error-Counted 0 _)
          (λ v h₂. one_error-Counted 0 (validate_eip55_checksum r.get_address c.address) e h₂))

  check_files-Counted : (path : Text) (c : ContractData) → Counted (check_files r path c)
  unfolding check_files
  check_files-Counted path c e h =
      count_seq (one_error 0 (safe_path_join r.cwd path ((artifact_name c ++ codes ".sol") ∷ []))) _
        h (one_error-Counted 0 _)
        (λ sol h₁.
          count_seq
            (one_error 0 (safe_path_join r.cwd path ((artifact_name c ++ codes "_abi.json") ∷ [])))
            _ h₁ (one_error-Counted 0 _)
            (λ abi h₂.
              count_seq (one_error 0 (r.fs.read sol)) _ h₂ (one_error-Counted 0 _) (λ source h₃.
                count_seq (one_error 0 (validate_solidity_file source (artifact_name c))) _ h₃
                  (one_error-Counted 0 _)
                  (λ ws h₄.
                    count_seq (one_error (length ws) (r.fs.read abi)) _ h₄
                      (one_error-Counted (length ws) _)
                      (λ there h₅.
                        count_seq (one_error (length ws) (safe_read_json r.parse r.fs abi)) _ h₅
                          (one_error-Counted (length ws) _)
                          (λ value h₆.
                            count_seq (one_error (length ws) (validate_abi value)) _ h₆
                              (one_error-Counted (length ws) _) (λ more never. cc never)))))))

  -- The names, the address, the source and the ABI of the contract passed, and its key is in the table.
  abbrev pub Passed : State → Text → ContractData → Type 0
  Passed s path c =
      ((address : Text) × (check_names r c ≡ ok address))
      × ((w : ℕ) × (check_files r path c ≡ ok w))
      × (has s.contract_addresses (contract_key c) ≡ true)

  pub Passed-mono :
      (s t : State) (path : Text) (c : ContractData) → Grows s t → Passed s path c → Passed t path c
  Passed-mono s t path c (_, _, keep) (names, files, there) =
      (names, files, keep (contract_key c) there)

  -- One contract: the tables grow; without a new error it has passed.
  abbrev Steps : State → Text → ContractData → State × Bool → Type 0
  Steps s path c n = Grows s (n.0) × ((n.0).errors ≤ s.errors → (n.1 ≡ true) × Passed (n.0) path c)

  contract_step :
      (s : State) (slug path : Text) (c : ContractData)
      → Steps s path c (validate_contract_files r s slug path c)
  unfolding validate_contract_files after_names after_register after_files count_rejection
  contract_step s slug path c = elim (Outcome-cases (check_names r c)) [
    | inr (e, bad) ↦
        let one = check_names-Counted c e bad in
        rw bad ((omega arith, refl, λ k h. h), λ h. absurd (omega (arith, one, h)))
    | inl (address, named) ↦ elim (Option-cases (register_contract s slug c)) [
      | inl taken ↦
          rw (named, taken) ((omega arith, refl, λ k h. h), λ h. absurd (omega (arith, h)))
      | inr (next, made) ↦
          let (same, tokens, table) = register_contract_inv s slug c next made in
          let info : ContractInfo = record { project = slug; contract = c.name } in
          let keep = λ (k : Text) (h : has s.contract_addresses k ≡ true).
            ap (λ t. has t k) table ∙ has-put s.contract_addresses (contract_key c) k info h in
          elim (Outcome-cases (check_files r path c)) [
            | inr (e, bad) ↦
                let one = check_files-Counted path c e bad in
                rw (named, made, bad)
                  ((omega (arith, same), tokens, keep), λ h. absurd (omega (arith, one, same, h)))
            | inl (w, fine) ↦
                rw (named, made, fine)
                  (
                    (omega (arith, same), tokens, keep),
                    λ h. (
                      refl,
                      (
                        (address, refl),
                        (w, refl),
                        ap (λ t. has t (contract_key c)) table
                            ∙ has-put_same s.contract_addresses (contract_key c) info,
                      ),
                    ),
                  )
          ]
    ]
  ]

  pub loop-Grows :
      (s : State) (slug path : Text) (cs : List ContractData) (count : ℕ) (valid : Bool)
      → Grows s ((contract_loop r s slug path cs count valid).0)
  unfolding contract_loop
  loop-Grows s slug path [] count valid = (omega arith, refl, λ k h. h)
  loop-Grows s slug path (c ∷ cs) count valid =
      let next = validate_contract_files r s slug path c in
      let after = if next.1 then count + 1 else count in
      Grows-trans s (next.0) ((contract_loop r (next.0) slug path cs after (valid && next.1)).0)
        ((contract_step s slug path c).0) (loop-Grows (next.0) slug path cs after (valid && next.1))

  abbrev pub Cleaned : Text → List ContractData → ℕ → State × ℕ × Bool → Type 0
  Cleaned path cs count n = (n.1 ≡ count + length cs) × (n.2 ≡ true) × All (Passed (n.0) path) cs

  contract_loop-valid :
      (s : State) (slug path : Text) (c : ContractData) (cs : List ContractData) (count : ℕ)
      → (validate_contract_files r s slug path c).1 ≡ true
      → contract_loop r s slug path (c ∷ cs) count true
        ≡ contract_loop r
            ((validate_contract_files r s slug path c).0)
            slug
            path
            cs
            (count + 1)
            true
  unfolding contract_loop
  contract_loop-valid s slug path c cs count valid = rw (contract_loop, valid) refl

  pub loop_clean :
      (s : State) (slug path : Text) (cs : List ContractData) (count : ℕ)
      → ((contract_loop r s slug path cs count true).0).errors ≤ s.errors
      → Cleaned path cs count (contract_loop r s slug path cs count true)
  unfolding contract_loop
  loop_clean s slug path [] count h = (omega arith, refl, tt)
  loop_clean s slug path (c ∷ cs) count h =
      let next = validate_contract_files r s slug path c in
      let (first, clean) = contract_step s slug path c in
      let rest =
        loop-Grows (next.0) slug path cs (if next.1 then count + 1 else count) (true && next.1) in
      let (valid, passed) = clean (omega (arith, rest.0, h)) in
      let same = contract_loop-valid s slug path c cs count valid in
      let later = loop-Grows (next.0) slug path cs (count + 1) true in
      let (total, all_valid, all_passed) =
        loop_clean (next.0) slug path cs (count + 1)
          (omega (arith, first.0, h, ap (λ x. (x.0).errors) same)) in
      subst (Cleaned path (c ∷ cs) count) (sym same) (
        omega (arith, total),
        all_valid,
        (
          Passed-mono (next.0) ((contract_loop r (next.0) slug path cs (count + 1) true).0) path c
              later passed,
          all_passed,
        ),
      )
