-- ===== src/Environment/Registry/Laws.antt =====
-- What a registration in src/adaptive_agent/environment.py leads to.
use adaptive_agent.Prelude.{
  true, false, String, some, List, [], ◌∷◌, ◌≡◌, ◌⊎◌, refl, inl, inr, arith, ◌==◌, eq_iff, eq_refl,
  find_first, member, Bool-cases,
}
use adaptive_agent.Models.Refs.{ToolSchema, EnvironmentManifest}
use adaptive_agent.Environment.Registry.{
  Registry, put_manifest, get_manifest, get_tool_schema, tools_ok, validate_manifest, register,
}

abbrev pub Holds : ToolSchema → List ToolSchema → Type 0
Holds ts [] = ⊥
Holds ts (x ∷ xs) = (x ≡ ts) ⊎ Holds ts xs

-- The names checked are not among those seen.
tools_ok-fresh :
    (seen : List String) (xs : List ToolSchema) (ts : ToolSchema)
    → tools_ok seen xs ≡ true
    → Holds ts xs
    → member ts.name seen ≡ false
unfolding tools_ok
tools_ok-fresh seen [] ts h i = elim i [ ]
tools_ok-fresh seen (x ∷ xs) ts h (inl e) = ground (arith, e)
tools_ok-fresh seen (x ∷ xs) ts h (inr i) = ground (arith, tools_ok-fresh (x.name ∷ seen) xs ts, i)

tools_ok-find :
    (seen : List String) (xs : List ToolSchema) (ts : ToolSchema)
    → tools_ok seen xs ≡ true
    → Holds ts xs
    → find_first (λ y. y.name == ts.name) xs ≡ some ts
unfolding tools_ok
tools_ok-find seen [] ts h i = elim i [ ]
tools_ok-find seen (x ∷ xs) ts h (inl e) = ground (arith, e, eq_refl ts.name)
tools_ok-find seen (x ∷ xs) ts h (inr i) =
    ground (arith, tools_ok-fresh (x.name ∷ seen) xs ts, tools_ok-find (x.name ∷ seen) xs ts, i)

put-get :
    (m : EnvironmentManifest) (r : Registry)
    → get_manifest (put_manifest m r) m.environment_id ≡ some m
unfolding get_manifest put_manifest
put-get m [] = ground (arith, eq_refl m.environment_id)
put-get m (n ∷ ns) = ground (arith, eq_refl m.environment_id, put-get m ns)

put-get_other :
    (m : EnvironmentManifest) (r : Registry) (env_id : String)
    → (m.environment_id == env_id) ≡ false
    → get_manifest (put_manifest m r) env_id ≡ get_manifest r env_id
unfolding get_manifest put_manifest
put-get_other m [] env_id e = ground (arith, e)
put-get_other m (n ∷ ns) env_id e =
    ground (arith, e, eq_iff n.environment_id m.environment_id, put-get_other m ns env_id e)

tools_of_validate :
    (m : EnvironmentManifest) → validate_manifest m ≡ true → tools_ok [] m.tool_schemas ≡ true
unfolding validate_manifest
tools_of_validate m h = ground (arith, h)

valid_of_register :
    (r r' : Registry) (m : EnvironmentManifest)
    → register r m ≡ some r'
    → (validate_manifest m ≡ true) × (r' ≡ put_manifest m r)
unfolding register
valid_of_register r r' m h = elim (Bool-cases (validate_manifest m)) [
  | inl e ↦ ground (arith, h, e)
  | inr e ↦ ground (arith, h, e)
]

found_in :
    (m : EnvironmentManifest) (r : Registry) (ts : ToolSchema)
    → get_manifest r m.environment_id ≡ some m
    → find_first (λ y. y.name == ts.name) m.tool_schemas ≡ some ts
    → get_tool_schema r m.environment_id ts.name ≡ some ts
unfolding get_tool_schema
found_in m r ts e f = ground (arith, e, f)

other_env :
    (r r' : Registry) (env_id tool_name : String)
    → get_manifest r' env_id ≡ get_manifest r env_id
    → get_tool_schema r' env_id tool_name ≡ get_tool_schema r env_id tool_name
unfolding get_tool_schema
other_env r r' env_id tool_name e = rw (e, get_tool_schema) refl

-- After a registration each tool of the manifest is found by its name in its environment, and the
-- tools of the other environments are found as before.
pub register-get_tool_schema :
    (r r' : Registry) (m : EnvironmentManifest)
    → register r m ≡ some r'
    → ((ts : ToolSchema)
        → Holds ts m.tool_schemas
        → get_tool_schema r' m.environment_id ts.name ≡ some ts)
      × ((env_id tool_name : String)
          → (m.environment_id == env_id) ≡ false
          → get_tool_schema r' env_id tool_name ≡ get_tool_schema r env_id tool_name)
register-get_tool_schema r r' m h =
    let (ok, same) = valid_of_register r r' m h in
    (
      λ ts i. rw same (
          found_in m (put_manifest m r) ts (put-get m r)
            (tools_ok-find [] m.tool_schemas ts (tools_of_validate m ok) i)),
      λ env_id tool_name e.
          rw same (other_env r (put_manifest m r) env_id tool_name (put-get_other m r env_id e)),
    )
