-- ===== src/Generating/Planning/Contents.antt =====
-- The contents that `prepareTransaction` of internal/compiler/transaction.go collects.
use stego.Prelude.{
  String, ◌≡◌, ◌≢◌, refl, sym, ap, subst, true, not, ◌||◌, List, [], ◌∷◌, Option, none, some, ◌==◌,
  string_eq, ok, require-step, In, In-cons, ◌∙◌, beq_ne,
}
use stego.Prelude.Dict.{Dict, lookup, insert, lookup-insert, lookup-insert_self}
use stego.Generating.Paths.{is_project_root_file}
use stego.Generating.Snapshot.{Bytes, snapshot_eq}
use stego.Generating.State.{Codec}
use stego.Generating.Planning.Types.{GenFile, file_bytes, PlanFault}
use stego.Generating.Planning.Compute.{is_held, file_hash}
use stego.Generating.Planning.Prepare.{recorded_hash, collect_contents}

pub is_held-none {ℓ} : {A : Type ℓ} (o : Option A) → not (is_held o) ≡ true → o ≡ none
is_held-none none h = refl
is_held-none (some a) h = cc

module _ (codec : Codec) where
  open codec use {hash_bytes, utf8}

  -- One generated file is new, and so are the others.
  collect_contents-step :
      (recorded : Dict String String) (f : GenFile) (fs : List GenFile) (m c : Dict String Bytes)
      → collect_contents codec recorded (f ∷ fs) m ≡ ok c
      → (lookup f.path m ≡ none)
        × (collect_contents codec recorded fs (insert f.path (file_bytes utf8 f) m) ≡ ok c)
  unfolding collect_contents
  collect_contents-step recorded f fs m c h =
      let (fresh, h₁) =
        require-step (not (is_held (lookup f.path m))) (PlanFault.duplicate_file f.path) _ h in
      let (_, h₂) =
        require-step
          (is_project_root_file f.path
            || recorded_hash (lookup f.path recorded) == file_hash codec f)
          (PlanFault.not_in_state f.path) _ h₁ in
      (is_held-none (lookup f.path m) fresh, h₂)

  collect_contents-keeps :
      (recorded : Dict String String) (fs : List GenFile) (m c : Dict String Bytes) (path : String)
      (bytes : Bytes)
      → collect_contents codec recorded fs m ≡ ok c
      → lookup path m ≡ some bytes
      → lookup path c ≡ some bytes
  unfolding collect_contents
  collect_contents-keeps recorded [] m c path bytes h held =
      let e : m ≡ c = cc in subst (λ x. lookup path x ≡ some bytes) e held
  collect_contents-keeps recorded (f ∷ fs) m c path bytes h held =
      let (fresh, rest) = collect_contents-step recorded f fs m c h in
      collect_contents-keeps recorded fs (insert f.path (file_bytes utf8 f) m) c path bytes rest (
        lookup-insert f.path path (file_bytes utf8 f) m
        ∙ (rw (beq_ne f.path path (λ e. clash (ap (λ n. lookup n m) e ∙ held) fresh)) held))
    where
      clash : lookup f.path m ≡ some bytes → lookup f.path m ≢ none
      clash a b = cc

  -- The content of each generated file is the one that is collected.
  pub collect_contents-each :
      (recorded : Dict String String) (fs : List GenFile) (m c : Dict String Bytes)
      → collect_contents codec recorded fs m ≡ ok c
      → (f : GenFile) → In f fs
      → lookup f.path c ≡ some (file_bytes utf8 f)
  collect_contents-each recorded [] m c h f i = elim i [ ]
  collect_contents-each recorded (g ∷ fs) m c h f i =
      let (fresh, rest) = collect_contents-step recorded g fs m c h in
      let next = insert g.path (file_bytes utf8 g) m in
      In-cons (λ k. lookup k.path c ≡ some (file_bytes utf8 k))
        (collect_contents-keeps recorded fs next c g.path (file_bytes utf8 g) rest
          (lookup-insert_self g.path (file_bytes utf8 g) m))
        (λ k j. collect_contents-each recorded fs next c rest k j) f i

  -- No other path has content.
  pub collect_contents-away :
      (recorded : Dict String String) (fs : List GenFile) (m c : Dict String Bytes) (path : String)
      → collect_contents codec recorded fs m ≡ ok c
      → ((f : GenFile) → In f fs → f.path ≢ path)
      → lookup path c ≡ lookup path m
  unfolding collect_contents
  collect_contents-away recorded [] m c path h away =
      let e : m ≡ c = cc in ap (λ x. lookup path x) (sym e)
  collect_contents-away recorded (f ∷ fs) m c path h away =
      let (fresh, rest) = collect_contents-step recorded f fs m c h in
      collect_contents-away recorded fs (insert f.path (file_bytes utf8 f) m) c path rest
        (λ g i. away g (In.there i))
      ∙ (lookup-insert f.path path (file_bytes utf8 f) m
          ∙ (rw (beq_ne f.path path (away f In.here)) refl))
