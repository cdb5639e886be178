-- ===== src/Lib.antt =====
-- A verification of geometry, a Go package for planar geometry: points, segments, rectangles,
-- lines, rings and polygons over float64, where a series of points may carry a packed quadtree
-- that makes rectangle queries fast.
--
-- The parts and the files that model them:
-- * Float.antt is float64 as a record of the operations that the code uses. Float/Laws.antt names
--   what the theorems need of its order and of ==; no theorem assumes a law of rounding, so
--   rounding and fused operations do not matter. IsExtended there, for Ring/Box.antt and what
--   rests on it, names which quotients of differences are infinite and which are NaN. Float/Between.antt is about what lies between
--   two floats, and Float/Grid.antt is a concrete instance for runs.
-- * Point.antt is point.go, Segment.antt and its children are segment.go and raycast.go, and
--   Rect.antt is rect.go; what takes a line or a polygon is in Line.antt and Poly.antt.
--   Rect/Order.antt and Segment/Bounds.antt are about the tests between rectangles.
-- * Series.antt, Series/Process.antt and Index.antt are series.go: baseSeries and its accessors;
--   processPoints; and makeSeries, buildIndex, setCompressed, Move and Search. Search.antt has the
--   linear scan of Search, and `each`, the specification of what a search does with its callback.
-- * Varint.antt is appendUvarint and readUvarint of qtree.go. QTree.antt is qNode with insert,
--   chooseQuad and quadBounds; QTree/Compress.antt is compress, and QTree/Search.antt is
--   qCompressSearch. QTree/Placed.antt states that items lie in the bounds of their nodes,
--   QTree/Packed.antt the format of the bytes, and QTree/Visits.antt which items a search visits;
--   Grown, Inserted, Found, Whole and Refines prove the operations against these.
-- * Ring.antt and its children are ring.go: a ring is a series or a rectangle. Ring/Tally.antt is
--   about the point test, and Ring/Same.antt and Line/Same.antt about rings and lines of the same
--   points with different indices. Search/Any.antt is about searches that end at the first segment
--   that passes a test. Index/Moved.antt is about Move, and Poly/Same.antt about the point test of
--   polygons, and Poly/Moved.antt about their Move. Ring/Parts.antt relates rings of the same parts,
--   for Ring/Within.antt, which is about a ring within a ring; Ring/Rounds.antt is about their loops.
--   Ring/Box.antt is about a rectangle as a ring, with Segment/Raycast/Axis.antt, which is about
--   Raycast on segments parallel to an axis. Line/Inside.antt is about a line in a rectangle.
--   Line.antt is line.go and Poly.antt is poly.go. A pointer that may be nil is an Option there.
-- * Series/Process/Least.antt is about the rectangle that processPoints finds. Shape.antt beside it
--   has the path along which its loop turns, where an edge between equal points hides the turn, and
--   Corners.antt the reference definition, the turns at the corners of the closed path.
-- * Geometry.antt is geometry.go: a value of the interface holds a point, a rectangle, a line or a
--   polygon, and each method is that of the type held. What a line takes over from its series
--   panics on a nil line. Geometry/Box.antt is about what a rectangle and the
--   polygon of its four corners contain.
-- * Prelude/Agree.antt is about two calls that return with the same value.
-- * Queue.antt is queue.go, the heap of the search for the nearest segment. Queue/Order.antt has
--   the heap order, Queue/Up.antt, Queue/Down.antt and Queue/Sink.antt the loops of push and pop, and
--   Queue/Ends.antt push and pop themselves; Queue/Drain.antt pops until the queue is empty.
-- * QTree/Nearby.antt is qCompressNearbySegment, and Distance.antt is DistanceToSeries. The modules
--   below QTree/Nearby relate the queue to the trees and segments that its nodes stand for, and
--   Distance/Least.antt joins the search with makeSeries. Nearest is the triple of results; the
--   queue that qpool lends is emptied before it is used, so it starts empty.
-- * The modules Tests run the code on concrete inputs.
--
-- A call returns a Run: a value, a run-time panic (an index out of range), or, in the model only,
-- fuel used up. A callback takes a state and returns it changed, with the answer that the search
-- heeds. The callbacks distToRect and distToSegment are functions of their argument. Pointers to
-- nodes are tree values, since the program never shares a node, and slices are lists, since nothing
-- writes to the points or the index once a series is made. A nil slice is told from an empty one
-- where buildIndex does so.
--
-- Integers: an int that is an index or a length is a native number; a series has fewer than 2^63
-- points. uint64 and uint32 arithmetic is written with its modulus; an index has fewer than 2^32
-- bytes, which is the range of the length that setCompressed stores. The two searches move behind a quad
-- by its size as it stands, where the code converts it to an int: the two differ on bytes with a
-- size of 2^63 or more only, which only corrupt bytes hold.
--
-- Fuel: insert descends by structural recursion over qMaxDepth - depth. readUvarint has nine
-- rounds after the first byte, since its shift reaches 70 then. Raycast has three rounds of
-- Nextafter, two for the ends of the segment and one to see that they are left. qCompressSearch has
-- as much fuel as the index has bytes, since each node takes one byte at least. ringContainsRing
-- calls itself once at most, on a rectangle, so it has two rounds.
-- qCompressNearbySegment has as much fuel as the index has bytes, since each round of its outer loop
-- takes a node or a segment out of the trees that are left.
-- The loop of push has a round for each node, and that of pop one more. The loop of ContainsLine
-- has the fuel that its caller gives.
--
-- From Go's standard library, sort.Ints is an insertion sort, and PutUvarint, PutUint32 and Uint32
-- are written out.
--
-- Not modelled: the declaration of the Series interface, which has no code (its methods are those of
-- a ring in Ring.antt), and the data of states.go.
pub mod Prelude
pub mod Float
pub mod Point
pub mod Segment
pub mod Rect
pub mod Search
pub mod Series
pub mod Varint
pub mod QTree
pub mod Index
pub mod Ring
pub mod Line
pub mod Queue
pub mod Poly
pub mod Geometry
pub mod Distance
pub mod Tests
