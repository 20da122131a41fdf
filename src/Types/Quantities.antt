-- ===== src/Types/Quantities.antt =====
-- types/quantities.hpp: `Vec3`, a vector under a tag that keeps quantities apart.
use xm_sigma.Common.{Bool}
use xm_sigma.Types.Eigen.{Eigen}

-- The tags that the header defines; a client may use others.
pub data QuantityTag : Type 0 where
  linear_velocity : QuantityTag
  angular_velocity : QuantityTag
  linear_acceleration : QuantityTag
  force : QuantityTag
  torque : QuantityTag

pub record Vec3 {Tag : Type 0} (E : Eigen) (t : Tag) : Type 0 where
  pub vec : E.Vector3d

abbrev pub LinearVelocity : Eigen → Type 0
LinearVelocity E = Vec3 E QuantityTag.linear_velocity

abbrev pub AngularVelocity : Eigen → Type 0
AngularVelocity E = Vec3 E QuantityTag.angular_velocity

abbrev pub LinearAcceleration : Eigen → Type 0
LinearAcceleration E = Vec3 E QuantityTag.linear_acceleration

abbrev pub Force : Eigen → Type 0
Force E = Vec3 E QuantityTag.force

abbrev pub Torque : Eigen → Type 0
Torque E = Vec3 E QuantityTag.torque

module _ {Tag : Type 0} {E : Eigen} {t : Tag} where
  -- The constructor from a vector, which is explicit, the one from coordinates, and the default.
  abbrev pub of_vector : E.Vector3d → Vec3 E t
  of_vector v = record { vec = v }

  abbrev pub of_coordinates : E.Scalar → E.Scalar → E.Scalar → Vec3 E t
  of_coordinates x y z = record { vec = E.vector x y z }

  abbrev pub default : Vec3 E t
  default = record { vec = E.zero_vector }

  abbrev pub zero : Vec3 E t
  zero = of_vector E.zero_vector

  unfoldable pub x : Vec3 E t → E.Scalar
  x a = E.first a.vec

  unfoldable pub y : Vec3 E t → E.Scalar
  y a = E.second a.vec

  unfoldable pub z : Vec3 E t → E.Scalar
  z a = E.third a.vec

  unfoldable pub norm : Vec3 E t → E.Scalar
  norm a = E.length_of a.vec

  -- The operators, which take one tag and give it.
  unfoldable pub plus : Vec3 E t → Vec3 E t → Vec3 E t
  plus a o = of_vector (E.add a.vec o.vec)

  unfoldable pub minus : Vec3 E t → Vec3 E t → Vec3 E t
  minus a o = of_vector (E.sub a.vec o.vec)

  unfoldable pub negate : Vec3 E t → Vec3 E t
  negate a = of_vector (E.opposite a.vec)

  unfoldable pub times : Vec3 E t → E.Scalar → Vec3 E t
  times a s = of_vector (E.mul a.vec s)

  unfoldable pub over : Vec3 E t → E.Scalar → Vec3 E t
  over a s = of_vector (E.div a.vec s)

  -- A scalar on the left.
  unfoldable pub scaled : E.Scalar → Vec3 E t → Vec3 E t
  unfolding times
  scaled s a = times a s

  -- The assigning operators: what they leave in their left operand.
  unfoldable pub plus_assign : Vec3 E t → Vec3 E t → Vec3 E t
  plus_assign a o = record a { vec = E.add_to a.vec o.vec }

  unfoldable pub minus_assign : Vec3 E t → Vec3 E t → Vec3 E t
  minus_assign a o = record a { vec = E.sub_from a.vec o.vec }

  unfoldable pub equal : Vec3 E t → Vec3 E t → Bool
  equal a o = E.eq a.vec o.vec

  unfoldable pub not_equal : Vec3 E t → Vec3 E t → Bool
  not_equal a o = E.ne a.vec o.vec
