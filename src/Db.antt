-- ===== src/Db.antt =====
-- The tables of src/db/schema that the modelled code reads and writes, with the columns it uses.
-- A row of a tenant-scoped table carries the id of its institute; a table is the list of its rows
-- in the order in which a scan meets them. Ids are texts, times are milliseconds.
pub mod Queries
pub mod Entitlements
pub mod Lessons
pub mod Documents
pub mod Tables
pub mod Isolation
use lamp_light.Base.{ℕ, Bool, true, false, Option, none, some, List, [], ◌∷◌}
use lamp_light.Base.Text.{Text}

-- `membership_role`
pub data Role : Type 0 where
  student instructor admin : Role

-- `enrollment_source_kind`
pub data SourceKind : Type 0 where
  program course : SourceKind

-- `lesson_resource_kind`
pub data ResourceKind : Type 0 where
  audio video pdf link : ResourceKind

abbrev pub kind_eq : SourceKind → SourceKind → Bool
kind_eq program program = true
kind_eq course course = true
kind_eq _ _ = false

-- An answer to a signup question, and the answers by the id of the question.
pub data Answer : Type 0 where
  said : Text → Answer
  ticked : Bool → Answer

abbrev pub Answers : Type 0
Answers = List (Text × Answer)

pub record Membership : Type 0 where
  pub tenant_id : Text
  pub user_id : Text
  pub role : Role
  pub profile : Answers

pub record Invitation : Type 0 where
  pub tenant_id : Text
  pub id : Text
  pub email : Text
  pub first_name : Text
  pub last_name : Text
  pub answers : Answers
  pub role : Role
  pub token_hash : Text
  pub expires_at : ℕ
  pub consumed_at : Option ℕ
  pub created_at : ℕ

pub record Course : Type 0 where
  pub tenant_id : Text
  pub id : Text
  pub title : Text
  pub slug : Text

pub record Program : Type 0 where
  pub tenant_id : Text
  pub id : Text
  pub title : Text

pub record CourseModule : Type 0 where
  pub tenant_id : Text
  pub id : Text
  pub course_id : Text

pub record Lesson : Type 0 where
  pub tenant_id : Text
  pub id : Text
  pub module_id : Text
  pub title : Text
  pub slug : Text
  pub content_md : Option Text
  pub is_free_preview : Bool
  pub duration_seconds : Option ℕ

pub record CourseInstructor : Type 0 where
  pub tenant_id : Text
  pub user_id : Text
  pub course_id : Text

pub record ProgramCourse : Type 0 where
  pub tenant_id : Text
  pub program_id : Text
  pub course_id : Text

pub record Enrollment : Type 0 where
  pub tenant_id : Text
  pub id : Text
  pub user_id : Text
  pub source_kind : SourceKind
  pub source_id : Text
  pub expires_at : Option ℕ
  pub granted_by : Option Text

pub record LessonResource : Type 0 where
  pub tenant_id : Text
  pub id : Text
  pub lesson_id : Text
  pub kind : ResourceKind
  pub storage_key : Option Text
  pub filename : Option Text
  pub is_downloadable : Bool
  pub byte_size : Option ℕ
  pub sort_order : ℕ

pub record CourseResource : Type 0 where
  pub tenant_id : Text
  pub id : Text
  pub course_id : Text
  pub kind : ResourceKind
  pub title : Text
  pub storage_key : Option Text
  pub url : Option Text
  pub filename : Option Text
  pub byte_size : Option ℕ
  pub is_public : Bool
  pub sort_order : ℕ

pub record Progress : Type 0 where
  pub tenant_id : Text
  pub user_id : Text
  pub lesson_id : Text
  pub position_seconds : ℕ
  pub completed_at : Option ℕ
  pub updated_at : ℕ

-- The audited actions, each with its metadata.
pub data Action : Type 0 where
  enrollment_granted : Text → SourceKind → Text → Option ℕ → Option Text → Action
  enrollment_revoked : Text → SourceKind → Text → Bool → Option Text → Action

pub record Audit : Type 0 where
  pub tenant_id : Text
  pub actor_user_id : Text
  pub target_id : Text
  pub action : Action

pub record Database : Type 0 where
  pub memberships : List Membership
  pub courses : List Course
  pub programs : List Program
  pub modules : List CourseModule
  pub lessons : List Lesson
  pub course_instructors : List CourseInstructor
  pub program_courses : List ProgramCourse
  pub enrollments : List Enrollment
  pub lesson_resources : List LessonResource
  pub course_resources : List CourseResource
  pub progress : List Progress
  pub invitations : List Invitation
  pub audit_log : List Audit

-- `TenantScope`: the institute that `getTenantDb` was asked for, and the transaction's tables.
pub record Scope : Type 0 where
  pub tenant_id : Text
  pub db : Database
