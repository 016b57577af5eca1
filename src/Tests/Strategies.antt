-- ===== src/Tests/Strategies.antt =====
-- The deployment strategies (uno/registry/deployment_strategy) at concrete inputs.
use uno.Prelude.{
  ℕ, ◌*◌, ◌<◌, ◌≡◌, refl, ◌≢◌, Option, none, some, List, [], ◌∷◌, arith, length, Result, ok, raise,
}
use uno.Prelude.Dict.{get, number_key}
use uno.Links.{AllocationMap, Port, PeerLinks, LinksMap, get_peers, get_interfaces}
use uno.Links.Apart.{fresh_map}
use uno.Strategy.{Generated, Choices, at, deploy}
use uno.Strategy.Static.{StaticDeployment, generate_static}
use uno.Strategy.Ring.{crossed, peer_across, crossed_count, generate_all_public}
use uno.Strategy.Ring.Symmetric.{Leads, Leads-back}
use uno.Strategy.Random.{Graph, new_graph}
use uno.Strategy.Random.Growing.{Tree, span_tree}
use uno.Strategy.Random.Growing.Paths.{IsWalk, span_tree-IsWalk}
use uno.Strategy.Endpoints.{HasPort, deploy_agrees, deploy_distinct}
use uno.Tests.Addresses.{backbone, backbone-IsAllocated}

abbrev in_order : Choices
in_order = record { iterate = λ xs. xs; shuffle = λ xs. xs }

-- Two public peers and a private one, connected to the first.
abbrev listed_links : StaticDeployment
listed_links = (1, 2 ∷ 3 ∷ []) ∷ (2, 1 ∷ []) ∷ (3, 1 ∷ []) ∷ []

abbrev pub static : List ℕ → List ℕ → Result Generated
static peers private_peers = generate_static listed_links

abbrev pub peers : List ℕ
peers = 1 ∷ 2 ∷ 3 ∷ []

abbrev pub run : Result LinksMap × AllocationMap
run = deploy static peers (3 ∷ []) (fresh_map backbone)

abbrev pub links_of : Result LinksMap → LinksMap
links_of (ok links) = links
links_of (raise e) = []

pub run_returns : run ≡ (ok (links_of run.0), run.1)
unfolding deploy generate_static
run_returns = refl

first_port : get_peers 1 (links_of run.0) ≡ 2 ∷ 3 ∷ []
unfolding deploy generate_static get_peers
first_port = refl

interfaces : get_interfaces 1 (links_of run.0) ≡ 184483842 ∷ 184483844 ∷ []
unfolding deploy generate_static get_interfaces
interfaces = refl

abbrev pub there : Port
there = record {
  index = 0;
  local_address = 184483842;
  peer_address = 184483843;
  network = record { address = 184483842; prefixlen = 31 };
}

abbrev back_again : Port
back_again = record {
  index = 0;
  local_address = 184483843;
  peer_address = 184483842;
  network = record { address = 184483842; prefixlen = 31 };
}

abbrev links_at : Option PeerLinks → PeerLinks
links_at none = record { n = 0; peers = [] }
links_at (some pl) = pl

pub has_there : HasPort (links_of run.0) 1 2 there
unfolding deploy generate_static get
has_there = (links_at (get (links_of run.0) 1), refl, refl)

has_back : HasPort (links_of run.0) 2 1 back_again
unfolding deploy generate_static get
has_back = (links_at (get (links_of run.0) 2), refl, refl)

deploy_agrees_example :
    (there.local_address ≡ back_again.peer_address)
    × (there.peer_address ≡ back_again.local_address)
    × (there.network ≡ back_again.network)
deploy_agrees_example =
    deploy_agrees static peers (3 ∷ []) (fresh_map backbone) run.1 (links_of run.0) run_returns 1 2
      there back_again has_there has_back

deploy_distinct_example : (◌≡◌ {A = ℕ} 1 1) × (◌≡◌ {A = ℕ} 2 2)
deploy_distinct_example =
    deploy_distinct static peers (3 ∷ []) (fresh_map backbone) run.1 (links_of run.0) run_returns
      backbone-IsAllocated 1 2 1 2 there there (omega arith) has_there has_there refl

third_of_five : crossed_count 5 3 ≡ ok 3
unfolding crossed_count
third_of_five = refl

abbrev four : List ℕ
four = 10 ∷ 20 ∷ 30 ∷ 40 ∷ []

across-Leads : Leads (generate_all_public crossed in_order four) 0 2
unfolding generate_all_public at
across-Leads = record {
  port = 2;
  total = 3;
  connection = λ i. elim (peer_across 4 i) [ ok j ↦ ok (some j) | raise e ↦ raise e ];
  counted = refl;
  below = omega arith;
  found = refl;
  leads = refl;
}

Leads-back_example :
    (2 < length four)
    × ((λ (n : ℕ). n) 2 ≢ 0)
    × Leads (generate_all_public crossed in_order four) 2 0
Leads-back_example = Leads-back crossed in_order four 0 2 (omega arith) (omega arith) across-Leads

abbrev graph : Graph
graph = new_graph peers (3 ∷ []) 1 2 3

span_tree-IsWalk_example :
    (start : ℕ) × (t : Tree) × (span_tree (λ k. k * 7) graph ≡ some (ok t)) × IsWalk graph start t
unfolding new_graph
span_tree-IsWalk_example = span_tree-IsWalk (λ k. k * 7) graph (omega arith)
