-- ===== src/Types/Eigen.antt =====
-- What the headers under types/ use of Eigen, which is not part of the repository: an argument of
-- the definitions that use it.
use xm_sigma.Common.{Bool}

pub record Eigen : Type 1 where
  pub Scalar : Type 0  -- `double`
  pub Vector3d : Type 0
  pub Quaterniond : Type 0
  pub vector : Scalar → Scalar → Scalar → Vector3d
  pub first : Vector3d → Scalar  -- `x()`, and so on
  pub second : Vector3d → Scalar
  pub third : Vector3d → Scalar
  pub length_of : Vector3d → Scalar  -- `norm()`
  pub add : Vector3d → Vector3d → Vector3d
  pub sub : Vector3d → Vector3d → Vector3d
  pub opposite : Vector3d → Vector3d
  pub mul : Vector3d → Scalar → Vector3d
  pub div : Vector3d → Scalar → Vector3d
  pub add_to : Vector3d → Vector3d → Vector3d  -- what `+=` leaves in its left operand
  pub sub_from : Vector3d → Vector3d → Vector3d
  pub eq : Vector3d → Vector3d → Bool
  pub ne : Vector3d → Vector3d → Bool
  pub zero_vector : Vector3d
  pub identity : Quaterniond
