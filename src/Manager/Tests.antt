-- ===== src/Manager/Tests.antt =====
-- The camera manager at a concrete list of models.
use cherupi_v4l.Base.{List, Option, [], get_elem?, none, refl, some, true, ℕ, ◌∷◌, ◌≡◌}
use cherupi_v4l.Camera.Setup.{fresh_camera}
use cherupi_v4l.Manager.Discover.{
  contains, discover_cameras, is_match, is_prefix, lower_all, number_matches, to_lower,
}
use cherupi_v4l.Processor.Lifecycle.{codes}
use cherupi_v4l.Camera.{Camera}

abbrev listed : List (Option (List ℕ))
listed = some (codes "ov5647") ∷ none ∷ some (codes "IMX519") ∷ some (codes "imx519_a") ∷ []

abbrev found : List (Camera ℕ)
found = discover_cameras fresh_camera true (codes "imx519") listed []

-- The second camera that matches has the id 1, although other models stand before it.
second-found : get_elem? found 1 ≡ some (fresh_camera 1)
unfolding discover_cameras number_matches is_match contains lower_all to_lower is_prefix
second-found = refl
