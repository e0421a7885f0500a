-- ===== src/Infra/Storage/Create.antt =====
-- Creating and restoring a volume by internal/core/services/volume.go and snapshot.go: all or nothing.
use thecloud.Prelude.{ℕ, true, List, [], ◌∷◌, ◌++◌, Text, ◌≡◌}
use thecloud.Prelude.Int.{ℤ}
use thecloud.Action.{Result, ok, err, Env, Action, Done, ◌>>◌, Keeps-read, Keeps-read}
use thecloud.Infra.Types.{Volume, Snapshot, Tables, Backend}
use thecloud.Infra.Storage.Service.{is_complete}

-- What a creation leaves of the volumes: one more at the end, which has the promised properties, or
-- the same.
abbrev pub Stored :
    {O : Type 0} → List Volume → (Volume → Type 0) → Result Volume → Tables O → Type 0
Stored vs Promise (ok v) t = (t.volumes ≡ vs ++ v ∷ []) × Promise v
Stored vs Promise (err x) t = t.volumes ≡ vs

module _ {O : Type 0} (b : Backend O) (e : Env) (vs : List Volume) where
  abbrev Same : Tables O → Type 0
  Same t = t.volumes ≡ vs

  -- The row is written or not.
  abbrev Written : Volume → Result Done → Tables O → Type 0
  Written v (ok d) t = t.volumes ≡ vs ++ v ∷ []
  Written v (err x) t = t.volumes ≡ vs

  -- What was asked for.
  abbrev pub Ordered : ℕ → Text → ℤ → Volume → Type 0
  Ordered user name size v = (v.user_id ≡ user) × (v.name ≡ name) × (v.size_gb ≡ size)

  -- As large as the snapshot and of its owner, if that is complete.
  abbrev pub RestoredFrom : Snapshot → Text → Volume → Type 0
  RestoredFrom s name v = Ordered s.user_id name s.size_gb v × (is_complete s.status ≡ true)
