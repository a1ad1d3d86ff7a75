-- ===== src/Equivalence/Classify/Kept.antt =====
-- Where the objects of a golden render go (ClassifyGolden in golden_classify.go).
use dual_deployment_operator.Base.{◌≡◌, String, List, ◌++◌, keep}
use dual_deployment_operator.Json.{Fields}
use dual_deployment_operator.Library.{Library}
use dual_deployment_operator.Equivalence.Objects.{find_object, put_all}
use dual_deployment_operator.Equivalence.Objects.Keys.{last_of}
use dual_deployment_operator.Equivalence.Classify.{GoldenOpts, Classified}
use dual_deployment_operator.Equivalence.Classify.Passes.{is_included, stays_on_seed, AreCarried}

module _ ⦃k : Library⦄ where
  -- What all passes do.
  record ArePasses (opts : GoldenOpts) (a c : Classified) (docs : List Fields) : Type 0 where
    whs : List Fields
    carried_by : AreCarried opts docs whs
    seed : c.seed ≡ put_all (keep (stays_on_seed opts) docs) a.seed
    shoot : c.shoot ≡ put_all whs a.shoot

  -- What both sets hold under each key.
  pub record IsClassified (docs shoot_from_mr : List Fields) (opts : GoldenOpts) (c : Classified)
      : Type 0 where
    pub seed :
        (key : String) → find_object key c.seed ≡ last_of key (keep (stays_on_seed opts) docs)
    pub webhooks : List Fields
    pub carried_by : AreCarried opts docs webhooks
    pub shoot :
        (key : String)
        → find_object key c.shoot
          ≡ last_of key (keep (is_included opts.exclusions) shoot_from_mr ++ webhooks)
