-- ===== src/Deploy/Tests.antt =====
-- A deployment with one container more than it should have.
use thecloud.Prelude.{ℕ, ◌+◌, false, [], ◌∷◌, some, ◌++◌, Text, text, ◌≡◌, refl}
use thecloud.Prelude.Int.{pos, negsuc}
use thecloud.Action.{ok, World, Env, pure, new_id}
use thecloud.Deploy.Types.{
  Deployment, Tables, Instances, finished, panicked, ready, scaling, deleting,
}
use thecloud.Deploy.Repo.{create_deployment_row, get_deployment_by_id, update_deployment}
use thecloud.Deploy.Service.{create_deployment, delete_deployment}
use thecloud.Deploy.Worker.{reconcile_deployment}
use thecloud.Deploy.Stale.{row_of, status_of, delete_deployment-undone}
use thecloud.Deploy.Replicas.{reconcile_deployment-finished, create_deployment-panics}

abbrev web : Deployment
web = record {
  id = 1;
  user_id = 7;
  name = text "web";
  image = text "nginx";
  replicas = pos 1;
  current_count = 2;
  ports = [];
  status = ready;
}

abbrev start : World (Tables ℕ)
start = record {
  tables = record { deployments = web ∷ []; containers = (1, 11) ∷ (1, 12) ∷ []; outside = 0 };
  journal = [];
  tick = 0;
}

abbrev quiet : Env
quiet = record { fails = λ n. false; clock = λ n. 1000; fresh = λ n. 100 + n; user = 7 }

abbrev engine : Instances ℕ
engine = record { launch = λ name image ports. new_id; terminate = λ inst. pure tt }

abbrev unique_name : Text → ℕ → Text
unique_name name time = name ++ time ∷ []

reconcile_deployment-finished_example :
    (reconcile_deployment engine unique_name web quiet start).0 ≡ ok finished
reconcile_deployment-finished_example =
    reconcile_deployment-finished engine unique_name quiet web 1 start refl

abbrev broken : Deployment
broken = record {
  id = 100;
  user_id = 7;
  name = text "bad";
  image = text "nginx";
  replicas = negsuc 0;
  current_count = 0;
  ports = [];
  status = scaling;
}

create_deployment-panics_example :
    (reconcile_deployment engine unique_name broken quiet start).0 ≡ ok panicked
unfolding create_deployment create_deployment_row
create_deployment-panics_example =
    create_deployment-panics engine unique_name quiet quiet start start (text "bad") (text "nginx")
      [] 0 {d = broken} refl refl refl

-- A deployment whose two containers are there, and that still counts one.
abbrev growing : Deployment
growing = record web { replicas = pos 2; current_count = 1; status = scaling }

abbrev grown : World (Tables ℕ)
grown = record start { tables = record start.tables { deployments = growing ∷ [] } }

delete_deployment-undone_example :
    (let w' = (delete_deployment 1 quiet grown).1 in
      (status_of (row_of 1 w'.tables) ≡ some deleting)
      × (status_of (row_of 1 (reconcile_deployment engine unique_name growing quiet w').1.tables)
          ≡ some ready))
unfolding delete_deployment get_deployment_by_id update_deployment
delete_deployment-undone_example =
    delete_deployment-undone engine unique_name quiet quiet grown growing 2 refl refl refl refl refl
      refl (λ n. refl)
