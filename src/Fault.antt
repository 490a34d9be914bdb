-- ===== src/Fault.antt =====
-- The errors that packages/core/src throws from its geometry code: one constructor for each message.
pub data Fault : Type 0 where
  bitmap_length : Fault  -- "bitmap byte length does not match bitLength"
  dirty_padding : Fault  -- "bitmap padding bits must be zero"
  index_bounds : Fault  -- "bitmap index is out of bounds"
  no_bitmaps : Fault  -- "bitmapAnd requires at least one bitmap"
  bad_dimensions : Fault  -- "rows and columns must be positive integers"
  bad_count : Fault  -- "count must be a positive integer"
  region_length : Fault  -- "region mask length does not match layout dimensions"
  metric_length : Fault  -- "metric lengths do not match layout geometry"
  bad_geometry : Fault  -- "layout geometry dimensions are inconsistent"
  unknown_code : Fault  -- "unknown SeatKind code"
  invalid_region : Fault  -- SeatRegionSchema.parse failed
  score_length : Fault  -- "seatScores length must equal rows × columns"
  infinite_score : Fault  -- "seatScores[…] must be finite", "member scores must all be finite"
  no_members : Fault  -- "runScore requires at least one member score"
  score_region : Fault  -- "unreachable: ALL region failed to compile"
  invalid_group : Fault  -- "assembled ResultGroup failed ResultGroupSchema validation"
