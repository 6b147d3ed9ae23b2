-- ===== src/Api/ImageController.antt =====
-- main-api/src/controllers/images.controller.ts. `get_object` is what S3 answers for a key.
pub mod SameImage
use Prim.Native.String.{◌++◌}
use judge_self.Common.{String, Option, none, some, ◌==◌, if◌then◌else◌}
use judge_self.Api.Http.{Param, first_value, truthy}
use judge_self.Api.Repositories.{
  Queries, Found, value, thrown, ProblemRecord, get_problem_by_contest_id_and_index,
}

-- An object with its body and its type, either of which may be missing, or an exception.
pub data Object : Type 0 where
  object : Option String → Option String → Object
  no_such_key : Object

pub data ImageReply : Type 0 where
  refused : String → ImageReply
  not_found : String → ImageReply
  -- the type and the body
  image : String → String → ImageReply
  internal_error : ImageReply

-- `response.ContentType || "image/jpeg"`
abbrev pub type_or_jpeg : Option String → String
type_or_jpeg none = "image/jpeg"
type_or_jpeg (some t) = if t == "" then "image/jpeg" else t

abbrev pub object_reply : Object → ImageReply
object_reply no_such_key = internal_error
object_reply (object none content_type) = not_found "Not found"
object_reply (object (some body) content_type) = image (type_or_jpeg content_type) body

module _ (q : Queries) (get_object : String → Object) where
  abbrev pub image_of : String → String → ImageReply
  image_of problem_id image_id =
      object_reply (get_object ("images/" ++ (problem_id ++ ("/" ++ image_id))))

  abbrev pub image_of_problem : String → Found (Option ProblemRecord) → ImageReply
  image_of_problem image_id thrown = internal_error
  image_of_problem image_id (value none) = not_found "Invalid Problem Index"
  image_of_problem image_id (value (some problem)) = image_of problem.id image_id

  abbrev pub image_given : Option String → Option String → Option String → ImageReply
  image_given none index image_id = refused "Valid Contest Id is required"
  image_given (some c) none image_id = refused "Valid Problem Index is required"
  image_given (some c) (some i) none = refused "Valid Image Id is required"
  image_given (some c) (some i) (some image_id) =
      image_of_problem image_id (get_problem_by_contest_id_and_index q c i)

  unfoldable pub get_image : Param → Param → Param → ImageReply
  get_image contest_id problem_index image_id =
      image_given (truthy (first_value contest_id)) (truthy (first_value problem_index))
        (truthy (first_value image_id))

  abbrev pub image_by_id : Option String → Option String → ImageReply
  image_by_id none image_id = refused "Valid Problem Id is required"
  image_by_id (some problem_id) none = refused "Valid Image Id is required"
  image_by_id (some problem_id) (some image_id) = image_of problem_id image_id

  unfoldable pub get_image_by_id : Param → Param → ImageReply
  get_image_by_id problem_id image_id =
      image_by_id (truthy (first_value problem_id)) (truthy (first_value image_id))
