-- ===== src/Converter.antt =====
-- src/tools/yuv420_convert.cpp: the command-line tool that converts the saved frames to images. The
-- children hold the names of the files, the decoding of a frame, the quadrants, the conversion of a
-- file and the workers of a batch.
pub mod Number
pub mod Stem
pub mod Names
pub mod Decode
pub mod Packing
pub mod Quadrants
pub mod Rotation
pub mod Batch
pub mod Workers
pub mod Progress
mod Tests
