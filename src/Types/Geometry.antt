-- ===== src/Types/Geometry.antt =====
-- types/geometry.hpp and types/vector.hpp: the composite values, and what a default one holds.
use xm_sigma.Common.{ℕ, List, []}
use xm_sigma.Types.Eigen.{Eigen}
use xm_sigma.Types.Time.{Timestamp}

module _ (E : Eigen) where
  abbrev pub Position3d : Type 0
  Position3d = E.Vector3d

  abbrev pub Velocity3d : Type 0
  Velocity3d = E.Vector3d

  abbrev pub Acceleration3d : Type 0
  Acceleration3d = E.Vector3d

  abbrev pub JointPosition3d : Type 0
  JointPosition3d = E.Vector3d

  abbrev pub JointVelocity3d : Type 0
  JointVelocity3d = E.Vector3d

  abbrev pub Force3d : Type 0
  Force3d = E.Vector3d

  abbrev pub Torque3d : Type 0
  Torque3d = E.Vector3d

pub record Twist (E : Eigen) : Type 0 where
  pub linear : Velocity3d E
  pub angular : Velocity3d E

abbrev pub default_twist : (E : Eigen) → Twist E
default_twist E = record { linear = E.zero_vector; angular = E.zero_vector }

pub record Wrench (E : Eigen) : Type 0 where
  pub force : Force3d E
  pub torque : Torque3d E

abbrev pub default_wrench : (E : Eigen) → Wrench E
default_wrench E = record { force = E.zero_vector; torque = E.zero_vector }

pub record Pose (E : Eigen) : Type 0 where
  pub position : Position3d E
  pub orientation : E.Quaterniond

abbrev pub default_pose : (E : Eigen) → Pose E
default_pose E = record { position = E.zero_vector; orientation = E.identity }

-- The angles are of type `float`, of which only its zero is used here.
pub record Euler (Float : Type 0) : Type 0 where
  pub roll : Float
  pub pitch : Float
  pub yaw : Float

abbrev pub default_euler : {Float : Type 0} → Float → Euler Float
default_euler zero_float = record { roll = zero_float; pitch = zero_float; yaw = zero_float }

pub record Odometry (E : Eigen) : Type 0 where
  pub child_frame_id : List ℕ
  pub pose : Pose E
  pub twist : Twist E
  pub frame_id : List ℕ
  pub stamp : Timestamp

abbrev pub default_odometry : (E : Eigen) → Odometry E
default_odometry E = record {
  child_frame_id = [];
  pose = default_pose E;
  twist = default_twist E;
  frame_id = [];
  stamp = 0;
}

-- `vector3_t<T>` and `vector4_t<T>`; `zero_value` is `T{}`.
pub record Vector3T (T : Type 0) : Type 0 where
  pub x : T
  pub y : T
  pub z : T

abbrev pub default_vector3 : {T : Type 0} → T → Vector3T T
default_vector3 zero_value = record { x = zero_value; y = zero_value; z = zero_value }

pub record Vector4T (T : Type 0) : Type 0 where
  pub x : T
  pub y : T
  pub z : T
  pub w : T

abbrev pub default_vector4 : {T : Type 0} → T → Vector4T T
default_vector4 zero_value = record {
  x = zero_value;
  y = zero_value;
  z = zero_value;
  w = zero_value;
}
