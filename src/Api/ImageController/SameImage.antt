-- ===== src/Api/ImageController/SameImage.antt =====
-- The two ways to an image of a problem (main-api/src/controllers/images.controller.ts).
use judge_self.Common.{String, ◌≡◌, refl, false, Option, none, some, ◌==◌}
use judge_self.Api.Http.{Param, single, first_value, truthy}
use judge_self.Api.Repositories.{Queries, value, ProblemRecord, get_problem_by_contest_id_and_index}
use judge_self.Api.ImageController.{Object, image_given, image_by_id, get_image, get_image_by_id}

-- For a contest and an index that are given and have a problem, an image is answered like the image of that
-- name of the problem itself, whose identifier is not empty.
pub get_image-get_image_by_id :
    (q : Queries) (get_object : String → Object) (contest_id problem_index image_id : Param)
    (c i : String) (problem : ProblemRecord)
    → truthy (first_value contest_id) ≡ some c
    → truthy (first_value problem_index) ≡ some i
    → get_problem_by_contest_id_and_index q c i ≡ value (some problem)
    → (problem.id == "") ≡ false
    → get_image q get_object contest_id problem_index image_id
      ≡ get_image_by_id q get_object (single problem.id) image_id
unfolding get_image get_image_by_id first_value
get_image-get_image_by_id q get_object contest_id problem_index image_id c i problem hc hi hp h =
    rw (hc, hi, h) (go (truthy (first_value image_id)))
  where
    go :
        (o : Option String)
        → image_given q get_object (some c) (some i) o
          ≡ image_by_id q get_object (some problem.id) o
    go none = refl
    go (some name) = rw hp refl
