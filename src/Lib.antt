-- ===== src/Lib.antt =====
-- A model of parts of the sparse symmetric direct solver in solver/ (namespace smf): the storage
-- formats that a matrix passes through before the factorization, the memory that the numeric
-- factorization works in, the pivoting of a front, the scheduler of the top of the assembly tree and
-- the C interface. V stands for double everywhere.
--
-- The parts and their files:
--   Base         names shared by all: Boolean tests on numbers, lists as std::vector (length,
--                get_elem?, get_or, set, take, drop, slice), the signed integers for Int.
--   Bucket       the two-pass counting sort (count, prefix sums, scatter) as coo_to_lower_csc in
--                solver/src/coo_to_csc.cpp writes it.
--   Matrix.Csc   solver/src/csc_matrix.cpp, solver/include/smf/csc_matrix.hpp and error.hpp: CscLower,
--                nnz, validate_shape.
--   Matrix.Columns, Matrix.Runs
--                how coo_to_lower_csc and clean_lower_csc write their result: one column of (row,
--                value) entries after the other, the runs of equal rows summed.
--   Matrix.Coo   solver/src/coo_to_csc.cpp and solver/include/smf/coo_matrix.hpp: CooMatrix and
--                coo_to_lower_csc.
--   Matrix.Clean solver/src/check_matrix.cpp and solver/include/smf/check_matrix.hpp: CleanedPattern
--                and clean_lower_csc, its checks, its fast path and its general path.
--   Matrix.Rank  solver/src/sym_graph.cpp: structural_rank.
--   Memory.FactorStack
--                solver/src/factor_stack.cpp and solver/include/smf/factor_stack.hpp: the double
--                buffer of contribution blocks, with alloc, free_top and flip.
--   Memory.ChunkArena
--                solver/src/parallel/chunk_arena.hpp: bump chunks and own-size chunks, with take and
--                reset.
--   Memory.ContribPool
--                solver/src/workspace.cpp: acquire_contrib and release_contrib.
--   Ordering.Pivot
--                solver/src/pivot_order.cpp and solver/include/smf/pivot_order.hpp:
--                realized_pivot_order.
--   Values       solver/src/workspace.cpp: resolve_factor_values, map_values_to_permuted and
--                map_updated_values_to_permuted. Values.Cleaned is the cleaned copy that they keep.
--   Front        solver/src/pivoting.cpp, solver/include/smf/pivoting.hpp and frontal_matrix.hpp: the
--                entries of a front, sym_swap_front, choose_pivot, apply_pivot_1x1 and apply_pivot_2x2
--                over abstract scalars.
--   Schedule     solver/src/parallel/top_scheduler.cpp and top_scheduler.hpp: TopScheduler. Its
--                children: System (work as steps of the workers), Threads (the thread budget),
--                Counting, Invariant, Order, Begin (what is known of the nodes), Progress
--                and Lanes (PassLanes).
--   Heap         solver/src/indexed_min_heap.hpp: IndexedMinHeap. Its children: Rank (the heap property
--                on numbers), Slots (places and ids with an entry in hand), Hand, Up and Down (the
--                sifts), Push, Top, Pop, Clear and Queue (the heap as a priority map).
--   Etree        solver/src/etree.cpp and solver/include/smf/etree.hpp: the parents that
--                build_elimination_tree, build_elimination_tree_from_rows and etree_from_adjacency
--                compute. Its children: Path (ancestors), Climb, Link and Rows (Liu's algorithm), Entries
--                and Left (the reads), Laws (the tree by its least rows), Permuted (a permuted graph),
--                Order, Column and Lower (a triangle by columns), and
--   Etree.Postorder
--                etree_postorder and finish_elimination_tree, with Kids, Visit, Total, First (the order
--                by recursion), Loop and Room (the loop and its stacks), Deep and Depth, and Build
--                (the whole tree).
--   CApi         solver/src/smf_c.cpp and solver/include/smf/smf_c.h: the C interface over a solver
--                that is a parameter. Its children: Analyse, Factor and Solve (the functions), and
--                Outcome, Refine and Policy (what they return and keep).
--   Dispatch     solver/src/dispatch_policy.cpp and solver/include/smf/dispatch_policy.hpp:
--                select_native_path and what it calls (compute_lower_bw,
--                has_full_structural_diagonal). Dispatch.Certify is certify_quasi_definite.
--
-- In the program analyse() cleans the user's matrix with clean_lower_csc, coo_to_lower_csc makes such
-- a matrix from triplets, and validate_shape is the test that later stages make of it. The numeric
-- factorization takes its temporary blocks from the three stores under Memory, its values from Values,
-- its path from Dispatch, and runs the top fronts under Schedule. The symbolic analysis takes the
-- parents and the postorder of the columns from Etree, and the matching keeps its columns in a Heap. CApi is a client of the whole: it
-- meets Values where smf_factor keeps the factored values for the refinement.
--
-- How the model reads the code:
--   * A std::vector is a List, an index a native number. A read out of range, undefined in the
--     source, is a fault (none) where no check before it excludes it; after such checks the model
--     reads with a default.
--   * Int and std::size_t do not wrap: sizes are taken to be below 2^31 and 2^64. A negative Int is
--     negsuc, and its conversion to std::size_t is larger than any vector's size.
--   * Mutable state is passed on explicitly; the calls made under a mutex are single steps.
--   * Code that is not in the repository is a parameter: std::sort (any permutation into ascending
--     rows), floating point addition (any operation; associative and commutative only where sums in
--     another order are compared), the content of uninitialised storage, the capacity that a
--     std::vector grows to.
--   * Loops are structural recursions on their remaining rounds or on the list they run over. The
--     loops on fuel: the chain of ChunkArena::take, where a block of at most `chunk` elements fits the
--     current chunk or the next, an empty one, so that two rounds are enough; the sifts of the heap,
--     on the places that are left above or below; the walks of the elimination tree, on n rounds,
--     as each step goes to a greater column; the loop of etree_postorder, on 2 n rounds, as it enters
--     and leaves each node once.
--   * Loops that write several independent results are split by the result.
--
-- Not modelled: the dense and multifrontal kernels (solver/src/ldlt_kernel.cpp, ldlt_aptp.cpp,
-- dense_indef.cpp, blocked_indef.cpp, dense_kernel_lapack.cpp, multifrontal_serial.cpp, numeric_front.cpp,
-- factor_indef.cpp, factor_posdef.cpp), the solve phase and refinement, the orderings, scalings and
-- matchings, whose results depend on floating point arithmetic, on BLAS and LAPACK or on METIS; the
-- adapters to Ipopt and MA97 and the interior-point session; the thread pools; file
-- input and diagnostics output. The assembly tree and build_symmetric_adjacency are discrete code
-- that is not modelled either.
pub mod Base
pub mod Memory
pub mod Bucket
pub mod Matrix
pub mod Ordering
pub mod Dispatch
pub mod Values
pub mod Front
pub mod Schedule
pub mod CApi
pub mod Heap
pub mod Etree
